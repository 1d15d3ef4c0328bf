-- ===== src/Machine/Laws.antt =====
-- The steps of the process on objects that are live.
use os_ex.Prelude.{ℕ, ◌≡◌, ◌≢◌, none, some, update, arith}
use os_ex.Checked.{Checked, Fault, pass, fail}
use os_ex.Thread.{Thread}
use os_ex.Machine.{System, returns, aborts, deref, call, delete}

pub deref_lem : (p : ℕ) (s : System) {t : Thread} → s.heap p ≡ some t → deref p s ≡ returns t s
unfolding deref
deref_lem p s e = rw (e, deref)

pub call_lem :
    (p : ℕ) (f : Thread → Checked Thread) (s : System) {t t' : Thread}
    → s.heap p ≡ some t
    → f t ≡ pass t'
    → call p f s ≡ returns tt (record s { heap = update s.heap p (some t') })
unfolding call
call_lem p f s e h = ground arith

pub delete_lem :
    (p : ℕ) (s : System) {t : Thread}
    → s.heap p ≡ some t
    → p ≢ 0
    → delete p s ≡ returns tt (record s { heap = update s.heap p none })
unfolding delete
delete_lem p s e h = ground arith

pub call_fails :
    (p : ℕ) (f : Thread → Checked Thread) (s : System) {t : Thread} {e : Fault}
    → s.heap p ≡ some t
    → f t ≡ fail e
    → call p f s ≡ aborts e
unfolding call
call_fails p f s live h = ground arith
