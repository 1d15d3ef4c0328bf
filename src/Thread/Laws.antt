-- ===== src/Thread/Laws.antt =====
-- How the methods of thread.h and thread.cpp that change a thread's state go together.
use os_ex.Prelude.{◌≡◌, ◌⊎◌, refl, ℕ, zero, suc, ℤ, pos, true, false, arith, ap, ◌∙◌}
use os_ex.Checked.{Checked, pass, fail, ◌>>=◌}
use os_ex.Thread.{
  Thread, ready, sleeping, blocked_and_sleeping, not_sleeping, set_block, unblock, wake_up,
  update_sleep_value, is_sleeping,
}

-- For a thread that is ready or sleeping, `unblock` undoes `set_block`.
pub unblock-set_block :
    (t : Thread) → (t.state ≡ ready) ⊎ (t.state ≡ sleeping) → unblock (set_block t) ≡ t
unfolding unblock set_block
unblock-set_block t h = ground arith

-- For a thread that is both blocked and sleeping, `wake_up` and `unblock` lead to the same ready
-- thread in either order, with no fault.
pub wake_up-unblock :
    (t : Thread)
    → t.state ≡ blocked_and_sleeping
    → (wake_up (unblock t) ≡ pass (record t { state = ready }))
      × ((wake_up t >>= λ u. pass (unblock u)) ≡ pass (record t { state = ready }))
unfolding unblock wake_up
wake_up-unblock t h = (ground arith, ground arith)

-- Rounds of the countdown in a row.
unfoldable pub count_down : ℕ → Thread → Checked Thread
count_down zero t = pass t
count_down (suc k) t = update_sleep_value t >>= count_down k

update_sleep_value_down :
    (n : ℕ) (t : Thread)
    → is_sleeping false t ≡ true
    → t.quantoms_left_to_sleep ≡ pos (suc n)
    → update_sleep_value t ≡ pass (record t { quantoms_left_to_sleep = pos n })
unfolding update_sleep_value
update_sleep_value_down n t h e = ground (arith, h, e)

update_sleep_value_over :
    (t : Thread)
    → is_sleeping false t ≡ true
    → t.quantoms_left_to_sleep ≡ pos 0
    → update_sleep_value t ≡ wake_up (record t { quantoms_left_to_sleep = not_sleeping })
unfolding update_sleep_value
update_sleep_value_over t h e = ground (arith, h, e)

same_count :
    (t : Thread)
    → t.quantoms_left_to_sleep ≡ pos 0
    → t ≡ record t { quantoms_left_to_sleep = pos 0 }
same_count t e = ap (λ q. record t { quantoms_left_to_sleep = q }) e

still_sleeping :
    (t : Thread) (k : ℤ)
    → is_sleeping false (record t { quantoms_left_to_sleep = k }) ≡ is_sleeping false t
unfolding is_sleeping
still_sleeping t k = refl

-- For a thread that sleeps with count n, `update_sleep_value` n times takes the count to 0 and
-- changes nothing else, and once more is `wake_up` with the count cleared to -1.
pub count_down_lem :
    (n : ℕ) (t : Thread)
    → is_sleeping false t ≡ true
    → t.quantoms_left_to_sleep ≡ pos n
    → (count_down n t ≡ pass (record t { quantoms_left_to_sleep = pos 0 }))
      × (count_down (suc n) t ≡ wake_up (record t { quantoms_left_to_sleep = not_sleeping }))
unfolding count_down
count_down_lem zero t h e = (
  ap pass (same_count t e),
  ap (λ m. m >>= pass) (update_sleep_value_over t h e)
      ∙ right (wake_up (record t { quantoms_left_to_sleep = not_sleeping })),
)
  where
    right : (m : Checked Thread) → (m >>= pass) ≡ m
    right (pass a) = refl
    right (fail b) = refl
count_down_lem (suc n) t h e =
    let u : Thread = record t { quantoms_left_to_sleep = pos n } in
    let (rests, wakes) = count_down_lem n u (still_sleeping t (pos n) ∙ h) refl in
    (
      ap (λ m. m >>= count_down n) (update_sleep_value_down n t h e) ∙ rests,
      ap (λ m. m >>= count_down (suc n)) (update_sleep_value_down n t h e) ∙ wakes,
    )
