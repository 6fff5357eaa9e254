-- ===== src/Prelude/Maps.antt =====
-- Go's maps by byte strings, as lists of pairs.
use de_mars_dmc.Prelude.{
  ◌≡◌, ◌∙◌, ap, refl, inl, inr, Option, none, some, List, [], ◌∷◌, Bool-cases, if◌then◌else◌,
}
use de_mars_dmc.Prelude.Bytes.{Bytes, bytes_equal, bytes_equal_eq}

-- `m[k]`, and `m[k] = v`.
unfoldable pub lookup {ℓ} : {V : Type ℓ} → Bytes → List (Bytes × V) → Option V
unfolding bytes_equal
lookup k [] = none
lookup k ((k', v) ∷ m) = if bytes_equal k k' then some v else lookup k m

unfoldable pub insert {ℓ} : {V : Type ℓ} → Bytes → V → List (Bytes × V) → List (Bytes × V)
unfolding bytes_equal
insert k v [] = (k, v) ∷ []
insert k v ((k', v') ∷ m) = if bytes_equal k k' then (k, v) ∷ m else (k', v') ∷ insert k v m

-- After a write the written key has the new value, and any other key what it had.
pub lookup-insert {ℓ} :
    {V : Type ℓ} (j k : Bytes) (v : V) (m : List (Bytes × V))
    → lookup j (insert k v m) ≡ (if bytes_equal j k then some v else lookup j m)
unfolding lookup insert
lookup-insert j k v [] = refl
lookup-insert j k v ((i, w) ∷ m) = elim (Bool-cases (bytes_equal k i)) [
  | inl e ↦
      let same = bytes_equal_eq k i e in
      elim (Bool-cases (bytes_equal j k)) [ inl q ↦ rw (e, q) | inr q ↦ rw (e, q, rw same at q) ]
  | inr e ↦
      let rest = lookup-insert j k v m in
      elim (Bool-cases (bytes_equal j k)) [
        | inl q ↦
            let other = ap (λ x. bytes_equal x i) (bytes_equal_eq j k q) ∙ e in
            rw (e, q, other) (rw q at rest)
        | inr q ↦ rw (e, q) (ap (λ o. if bytes_equal j i then some w else o) (rw q at rest))
      ]
]
