-- ===== src/Db/Pool.antt =====
-- The queue of free database connections seen as a multiset, which calls leave as it is.
use mathlib.Core.List.{Permᴰ, perm_append_singleton}
use mathlib.Core.Logic.{∥∥₁_elim}
use native.Mathlib.Bridge.{le_prop}
use mathlib.Core.Quot.{sound}
use mathlib.Mathlib.Data.Multiset.Defs.{Multiset, of_list, coe-eq-coe}
use jbjb.Base.{ℕ, ◌≡◌, refl, ap, ap₂, sym, subst, ◌∙◌, List, [], ◌∷◌, ◌++◌, arith, length, All}
use jbjb.Db.Connections.{IsIndex, PoolInv}
use jbjb.World.{World}

All-Permᴰ {ℓ κ} : {A : Type ℓ} (P : A → Type κ) {xs ys : List A} → Permᴰ xs ys → All P xs → All P ys
All-Permᴰ P Permᴰ.nil h = tt
All-Permᴰ P (Permᴰ.cons e p) h = (subst P e h.0, All-Permᴰ P p h.1)
All-Permᴰ P (Permᴰ.swap e e') h = (subst P e' h.1.0, (subst P e h.0, h.1.1))
All-Permᴰ P (Permᴰ.trans p q) h = All-Permᴰ P q (All-Permᴰ P p h)

All-prop {ℓ κ} :
    {A : Type ℓ} (P : A → Type κ) (xs : List A) → ((a : A) → IsProp (P a)) → IsProp (All P xs)
All-prop P [] prop h h' = refl
All-prop P (x ∷ xs) prop h h' = ap₂ (λ p q. (p, q)) (prop x h.0 h'.0) (All-prop P xs prop h.1 h'.1)

length-Permᴰ {ℓ} : {A : Type ℓ} {xs ys : List A} → Permᴰ xs ys → length xs ≡ length ys
length-Permᴰ Permᴰ.nil = refl
length-Permᴰ (Permᴰ.cons e p) = omega (arith, length-Permᴰ p)
length-Permᴰ (Permᴰ.swap e e') = refl
length-Permᴰ (Permᴰ.trans p q) = length-Permᴰ p ∙ length-Permᴰ q

module _ {S D : Type 0} where
  PoolInv-prop : {w : World S D} → IsProp (PoolInv w)
  PoolInv-prop {w} v v' =
      ap₂ (λ f i. record { free = f; indices = i }) (le_prop v.free v'.free)
        (All-prop (IsIndex w.connection_pool) w.connection_que (λ i. le_prop) v.indices v'.indices)

  -- The connections that are free, in whatever order.
  abbrev pub free_connections : World S D → Multiset ℕ
  free_connections w = of_list w.connection_que

  pub record KeptPool (w w' : World S D) : Type 0 where
    pub que : free_connections w' ≡ free_connections w
    pub connection_pool : w'.connection_pool ≡ w.connection_pool

  pub KeptPool-refl : {w : World S D} → KeptPool w w
  KeptPool-refl = record { que = refl; connection_pool = refl }

  pub KeptPool-trans : {u v w : World S D} → KeptPool u v → KeptPool v w → KeptPool u w
  KeptPool-trans p q = record {
    que = q.que ∙ p.que;
    connection_pool = q.connection_pool ∙ p.connection_pool;
  }

  -- A connection that was at the front is back at the end.
  pub turned-KeptPool :
      (w : World S D) (index : ℕ) (rest : List ℕ)
      → w.connection_que ≡ index ∷ rest
      → free_connections (record w { connection_que = rest ++ index ∷ [] }) ≡ free_connections w
  turned-KeptPool w index rest e = sound (perm_append_singleton index rest) ∙ sym (ap of_list e)

  pub KeptPool-PoolInv : {w w' : World S D} → KeptPool w w' → PoolInv w → PoolInv w'
  KeptPool-PoolInv {w} {w'} p inv = ∥∥₁_elim (coe-eq-coe.0 (sym p.que)) PoolInv-prop (λ same.
      record {
        free = omega (arith, length-Permᴰ same, inv.free);
        indices =
            subst (λ pool. All (IsIndex pool) w'.connection_que) (sym p.connection_pool)
              (All-Permᴰ (IsIndex w.connection_pool) same inv.indices);
      })
