-- ===== src/Webhook/JsonPointer.antt =====
-- jsonPointerEscape and jsonPointerUnescape of pkg/webhook/mutate.go.
use spotalis.Common.{◌==◌, ◌≡◌, refl, [], ◌∷◌, arith, ap, ◌∙◌, Bool-cases, inl, inr}
use spotalis.Common.Text.{
  Text, replace_one, replace_pair, replace_pair-other, replace_pair-half, replace_pair-match,
}

pub json_pointer_escape : Text → Text
json_pointer_escape s =
    replace_one b'/' (b'~' ∷ (b'1' ∷ [])) (replace_one b'~' (b'~' ∷ (b'0' ∷ [])) s)

pub json_pointer_unescape : Text → Text
json_pointer_unescape s = replace_pair b'~' b'0' (b'~' ∷ []) (replace_pair b'~' b'1' (b'/' ∷ []) s)

-- The text between the two replacements of the unescaping.
tildes : Text → Text
tildes s = replace_one b'~' (b'~' ∷ (b'0' ∷ [])) s

slashes_back : (s : Text) → replace_pair b'~' b'1' (b'/' ∷ []) (json_pointer_escape s) ≡ tildes s
unfolding json_pointer_escape replace_one tildes
slashes_back [] = unfold replace_pair in refl
slashes_back (c ∷ s) = elim (Bool-cases (c == b'~')) [
  | inl tilde ↦ rw tilde (
      replace_pair-half b'~' b'1' (b'/' ∷ []) b'0' _ refl
      ∙ ap (λ r. b'~' ∷ r)
          (replace_pair-other b'~' b'1' (b'/' ∷ []) b'0' _ refl
            ∙ ap (λ r. b'0' ∷ r) (slashes_back s)))
  | inr other ↦ elim (Bool-cases (c == b'/')) [
    | inl slash ↦
        rw (other, slash)
          (replace_pair-match b'~' b'1' (b'/' ∷ []) _ ∙ ground (arith, slashes_back s))
    | inr plain ↦
        rw (other, plain)
          (replace_pair-other b'~' b'1' (b'/' ∷ []) c _ other ∙ ap (λ r. c ∷ r) (slashes_back s))
  ]
]

tildes_back : (s : Text) → replace_pair b'~' b'0' (b'~' ∷ []) (tildes s) ≡ s
unfolding replace_one tildes
tildes_back [] = unfold replace_pair in refl
tildes_back (c ∷ s) = elim (Bool-cases (c == b'~')) [
  | inl tilde ↦
      rw tilde (replace_pair-match b'~' b'0' (b'~' ∷ []) _ ∙ ground (arith, tildes_back s))
  | inr other ↦
      rw other
        (replace_pair-other b'~' b'0' (b'~' ∷ []) c _ other ∙ ap (λ r. c ∷ r) (tildes_back s))
]

-- Unescaping gives back every text that was escaped.
pub unescape-escape : (s : Text) → json_pointer_unescape (json_pointer_escape s) ≡ s
unfolding json_pointer_unescape
unescape-escape s = rw (slashes_back s) (tildes_back s)
