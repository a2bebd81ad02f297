-- ===== src/Common/Assoc.antt =====
-- Hash maps as association lists, for any key with decidable equality; iteration goes along the list.
use mathlib.Core.Path.{◌≡◌, refl, sym, subst, ◌∙◌}
use mathlib.Core.Logic.{◌≢◌, ite, if_pos, if_neg}
use mathlib.Core.Option.{Option, none, some, some-injective}
use mathlib.Core.List.{List, [], ◌∷◌}
use native.Mathlib.Omega.{arith}
unfoldable pub use native.Mathlib.Decide.{ℕ_discrete}
use distributed_im.Common.Lists.{Bytes}

unfoldable pub bytes_discrete : Discrete Bytes
unfolding ℕ_discrete
bytes_discrete = hlevel ℕ_discrete

module _ {ℓ} {K V : Type ℓ} (d : Discrete K) where
  -- `m.find(k)`.
  unfoldable pub find : K → List (K × V) → Option V
  find k [] = none
  find k ((j, v) ∷ m) = ite (d j k) (some v) (find k m)

  -- `m[k] = v`.
  unfoldable pub insert : K → V → List (K × V) → List (K × V)
  insert k v [] = (k, v) ∷ []
  insert k v ((j, w) ∷ m) = ite (d j k) ((k, v) ∷ m) ((j, w) ∷ insert k v m)

  -- `m.erase(k)`.
  unfoldable pub erase : K → List (K × V) → List (K × V)
  erase k [] = []
  erase k ((j, w) ∷ m) = ite (d j k) (erase k m) ((j, w) ∷ erase k m)

  pub find-insert_self : (k : K) (v : V) (m : List (K × V)) → find k (insert k v m) ≡ some v
  unfolding find insert
  find-insert_self k v [] = ground arith
  find-insert_self k v ((j, w) ∷ m) = ground (arith, find-insert_self k v m)

  pub find-insert_ne :
      (k j : K) (v : V) (m : List (K × V)) → k ≢ j → find j (insert k v m) ≡ find j m
  unfolding find insert
  find-insert_ne k j v [] h = ground arith
  find-insert_ne k j v ((i, w) ∷ m) h = ground (arith, find-insert_ne k j v m)

  pub find-erase_self : (k : K) (m : List (K × V)) → find k (erase k m) ≡ none
  unfolding find erase
  find-erase_self k [] = refl
  find-erase_self k ((j, w) ∷ m) = ground (arith, find-erase_self k m)

  pub find-erase_ne : (k j : K) (m : List (K × V)) → k ≢ j → find j (erase k m) ≡ find j m
  unfolding find erase
  find-erase_ne k j [] h = refl
  find-erase_ne k j ((i, w) ∷ m) h = ground (arith, find-erase_ne k j m)

  -- No key stands twice.
  abbrev pub NodupKeys : List (K × V) → Type ℓ
  NodupKeys [] = Unit {ℓ}
  NodupKeys ((k, v) ∷ m) = (find k m ≡ none) × NodupKeys m

  -- What holds of every entry.
  abbrev pub AllEntries : (K → V → Type ℓ) → List (K × V) → Type ℓ
  AllEntries P [] = Unit {ℓ}
  AllEntries P ((k, v) ∷ m) = P k v × AllEntries P m

  pub insert-NodupKeys : (k : K) (v : V) (m : List (K × V)) → NodupKeys m → NodupKeys (insert k v m)
  unfolding insert find
  insert-NodupKeys k v [] n = (refl, tt)
  insert-NodupKeys k v ((j, w) ∷ m) n = elim (d j k) [
    | yes e ↦ rw (if_pos _ e) (rw e at n.0, n.1)
    | no h ↦
        rw (if_neg _ h) (
          unfold insert in find-insert_ne k j v m (λ e. h (sym e)) ∙ n.0,
          insert-NodupKeys k v m n.1,
        )
  ]

  pub find-erase_absent : (k j : K) (m : List (K × V)) → find j m ≡ none → find j (erase k m) ≡ none
  unfolding find erase
  find-erase_absent k j [] h = refl
  find-erase_absent k j ((i, w) ∷ m) h = ground (arith, find-erase_absent k j m)

  pub erase-NodupKeys : (k : K) (m : List (K × V)) → NodupKeys m → NodupKeys (erase k m)
  unfolding erase
  erase-NodupKeys k [] n = tt
  erase-NodupKeys k ((j, w) ∷ m) n = elim (d j k) [
    | yes e ↦ rw (if_pos _ e) (erase-NodupKeys k m n.1)
    | no h ↦ rw (if_neg _ h) (find-erase_absent k j m n.0, erase-NodupKeys k m n.1)
  ]

  pub insert-AllEntries :
      (P : K → V → Type ℓ) (k : K) (v : V) (m : List (K × V))
      → P k v
      → AllEntries P m
      → AllEntries P (insert k v m)
  unfolding insert
  insert-AllEntries P k v [] p h = (p, tt)
  insert-AllEntries P k v ((j, w) ∷ m) p h = elim (d j k) [
    | yes e ↦ rw (if_pos _ e) (p, h.1)
    | no n ↦ rw (if_neg _ n) (h.0, insert-AllEntries P k v m p h.1)
  ]

  pub erase-AllEntries :
      (P : K → V → Type ℓ) (k : K) (m : List (K × V)) → AllEntries P m → AllEntries P (erase k m)
  unfolding erase
  erase-AllEntries P k [] h = tt
  erase-AllEntries P k ((j, w) ∷ m) h = elim (d j k) [
    | yes e ↦ rw (if_pos _ e) (erase-AllEntries P k m h.1)
    | no n ↦ rw (if_neg _ n) (h.0, erase-AllEntries P k m h.1)
  ]

  pub find-AllEntries :
      (P : K → V → Type ℓ) (k : K) (v : V) (m : List (K × V))
      → AllEntries P m
      → find k m ≡ some v
      → P k v
  unfolding find
  find-AllEntries P k v [] h e = absurd (cc)
  find-AllEntries P k v ((j, w) ∷ m) h e = elim (d j k) [
    | yes same ↦
        subst (λ x. P x v) same
          (subst (λ x. P j x) (some-injective _ _ (rw (if_pos _ same) at e)) h.0)
    | no n ↦ find-AllEntries P k v m h.1 (rw (if_neg _ n) at e)
  ]
