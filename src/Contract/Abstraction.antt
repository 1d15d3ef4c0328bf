-- ===== src/Contract/Abstraction.antt =====
-- What uthreads.h speaks of, read off the state of the scheduler of scheduler.h.
use os_ex.Prelude.{
  ℕ, ◌≡◌, refl, ap, fun_ext, ◌∙◌, List, map, Option, none, some, ℤ, pos, negsuc, length, lookup,
  update, ◌==◌, if◌then◌else◌, arith, ℕ_discrete,
}
use os_ex.Thread.{Thread, ThreadState, running, ready, blocked, sleeping, blocked_and_sleeping}
use os_ex.Machine.{System}
use os_ex.Invariant.{Inv, cell_at, update_self, update_other}
use os_ex.Contract.{Status, Info, View}

abbrev pub left : ℤ → ℕ
left (pos n) = n
left (negsuc n) = 0

abbrev pub status_of : ThreadState → ℤ → Status
status_of running k = Status.running
status_of ready k = Status.ready
status_of blocked k = Status.blocked
status_of sleeping k = Status.sleeping (left k)
status_of blocked_and_sleeping k = Status.blocked

abbrev pub info_of : Thread → Info
info_of t = record {
  status = status_of t.state t.quantoms_left_to_sleep;
  quantums = t.running_quantoms_num;
}

abbrev pub info_at : Option Thread → Option Info
info_at none = none
info_at (some t) = some (info_of t)

abbrev pub entry_info : (ℕ → Option Thread) → Option ℕ → Option Info
entry_info heap none = none
entry_info heap (some p) = info_at (heap p)

abbrev pub id_of : Option Thread → ℕ
id_of none = 0
id_of (some t) = t.id

abbrev pub ids : (ℕ → Option Thread) → List ℕ → List ℕ
ids heap xs = map (λ p. id_of (heap p)) xs

abbrev pub view : System → View
view s = record {
  current = s.running_thread_id;
  ready = ids s.heap s.ready_queue;
  info = λ id. entry_info s.heap (lookup id s.active_threads);
  size = length s.active_threads;
  total = s.total_quantoms;
}

-- Objects that keep their ids leave a list of ids as it is.
pub ids-eq :
    (f g : ℕ → Option Thread) (xs : List ℕ)
    → ((q : ℕ) → id_of (f q) ≡ id_of (g q))
    → ids f xs ≡ ids g xs
ids-eq f g xs h = ap (λ k. map k xs) (fun_ext h)

pub ids-update :
    (heap : ℕ → Option Thread) (p : ℕ) (t' : Thread) (xs : List ℕ) {t : Thread}
    → heap p ≡ some t
    → t'.id ≡ t.id
    → ids (update heap p (some t')) xs ≡ ids heap xs
ids-update heap p t' xs live h = ids-eq (update heap p (some t')) heap xs same
  where
    same : (q : ℕ) → id_of (update heap p (some t') q) ≡ id_of (heap q)
    same q = ground (arith, live, h)

module _ {cap cur : ℕ} {s : System} (inv : Inv cap cur s) where
  -- A live object is what its id shows.
  pub info-live : (p : ℕ) {t : Thread} → s.heap p ≡ some t → (view s).info t.id ≡ some (info_of t)
  info-live p {t} live = ap (entry_info s.heap) (cell_at inv p live).registered ∙ ap info_at live

  -- Where one object changes and keeps its id, one thread changes.
  pub info-update :
      (p : ℕ) (t' : Thread) {t : Thread}
      → s.heap p ≡ some t
      → t'.id ≡ t.id
      → (id : ℕ)
      → entry_info (update s.heap p (some t')) (lookup id s.active_threads)
        ≡ (if id == t.id then some (info_of t') else (view s).info id)
  info-update p t' {t} live same id = go (lookup id s.active_threads) refl
    where
      go :
          (o : Option ℕ)
          → lookup id s.active_threads ≡ o
          → entry_info (update s.heap p (some t')) o
            ≡ (if id == t.id then some (info_of t') else entry_info s.heap o)
      go none e = ground (arith, (cell_at inv p live).registered)
      go (some q) e =
          let (u, live', i) = inv.entries id q e in
          elim (ℕ_discrete q p) [
            | yes h ↦ rw h (rw (update_self s.heap p (some t')) (ground (arith, h, live, live', i)))
            | no h ↦
                rw (update_other s.heap p q (some t') h)
                  (ground (arith, (cell_at inv p live).registered, e))
          ]
