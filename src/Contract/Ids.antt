-- ===== src/Contract/Ids.antt =====
-- Lists of addresses of scheduler.h and the lists of ids that uthreads.h speaks of.
use os_ex.Prelude.{
  ◌++◌, ℕ, ◌+◌, ◌<◌, ◌≡◌, refl, ap, ◌∙◌, List, [], ◌∷◌, Option, none, some, count, count-cons,
  count-cons_self, erase, lookup, ◌==◌, of_bool, arith, ℕ_discrete,
}
use os_ex.Thread.{Thread}
use os_ex.Machine.{System}
use os_ex.Invariant.{Inv, cell_at}
use os_ex.Contract.Abstraction.{ids, id_of}

abbrev pub AreLive : (ℕ → Option Thread) → List ℕ → Type 0
AreLive heap xs = (q : ℕ) → 0 < count q xs → (t : Thread) × (heap q ≡ some t)

abbrev pub occurrences : Option ℕ → List ℕ → ℕ
occurrences none xs = 0
occurrences (some p) xs = count p xs

AreLive-tail :
    {heap : ℕ → Option Thread} (x : ℕ) (xs : List ℕ) → AreLive heap (x ∷ xs) → AreLive heap xs
AreLive-tail x xs live q h = live q (omega (arith, h, count-cons q x xs))

module _ {cap cur : ℕ} {s : System} (inv : Inv cap cur s) where
  -- An id shows in the list of ids as often as its address in the list of addresses.
  pub count-ids :
      (xs : List ℕ) (id : ℕ)
      → AreLive s.heap xs
      → count id (ids s.heap xs) ≡ occurrences (lookup id s.active_threads) xs
  unfolding count
  count-ids [] id live = none_left (lookup id s.active_threads)
    where
      none_left : (o : Option ℕ) → 0 ≡ occurrences o []
      none_left none = refl
      none_left (some p) = refl
  count-ids (x ∷ xs) id live =
      let (t, e) = live x (omega (arith, count-cons_self x xs)) in
      head t e (lookup id s.active_threads) refl (count-ids xs id (AreLive-tail x xs live))
    where
      head :
          (t : Thread)
          → s.heap x ≡ some t
          → (o : Option ℕ) → lookup id s.active_threads ≡ o
          → count id (ids s.heap xs) ≡ occurrences o xs
          → of_bool (id_of (s.heap x) == id) + count id (ids s.heap xs) ≡ occurrences o (x ∷ xs)
      head t e none l ih = ground (arith, (cell_at inv x e).registered, e, l, ih)
      head t e (some p) l ih =
          let (u, e', i) = inv.entries id p l in
          ground (arith, (cell_at inv x e).registered, e, e', i, l, ih)

  -- To erase an address is to erase its id.
  pub ids-erase :
      (xs : List ℕ) (p : ℕ) {t : Thread}
      → AreLive s.heap xs
      → s.heap p ≡ some t
      → ids s.heap (erase p xs) ≡ erase t.id (ids s.heap xs)
  unfolding erase
  ids-erase [] p live e = refl
  ids-erase (x ∷ xs) p {t} live e =
      let (u, e') = live x (omega (arith, count-cons_self x xs)) in
      let ih = ids-erase xs p {t = t} (AreLive-tail x xs live) e in
      elim (ℕ_discrete x p) [
        | yes h ↦ ground (arith, h, e, e')
        | no h ↦
            ground
              (arith, (cell_at inv x e').registered, (cell_at inv p e).registered, e, e', h, ih)
      ]

-- Objects that keep their ids on a list leave its list of ids as it is.
pub ids-eq_on :
    (f g : ℕ → Option Thread) (xs : List ℕ)
    → ((q : ℕ) → 0 < count q xs → id_of (f q) ≡ id_of (g q))
    → ids f xs ≡ ids g xs
ids-eq_on f g [] h = refl
ids-eq_on f g (x ∷ xs) h =
    ap (λ n. n ∷ ids f xs) (h x (omega (arith, count-cons_self x xs)))
    ∙ ap (λ r. id_of (g x) ∷ r)
        (ids-eq_on f g xs (λ q k. h q (omega (arith, k, count-cons q x xs))))

pub ids-snoc :
    (heap : ℕ → Option Thread) (xs : List ℕ) (p : ℕ) {t : Thread}
    → heap p ≡ some t
    → ids heap (xs ++ p ∷ []) ≡ ids heap xs ++ t.id ∷ []
ids-snoc heap [] p live = ap (λ o. id_of o ∷ []) live
ids-snoc heap (x ∷ xs) p {t} live = ap (λ r. id_of (heap x) ∷ r) (ids-snoc heap xs p {t = t} live)
