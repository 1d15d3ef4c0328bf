-- ===== src/Program/Frames.antt =====
-- The locals of the threads of main.cpp, and what a result or a count does to them.
use os_ex.Prelude.{
  ℕ, suc, ◌+◌, ◌<◌, ◌≤◌, ◌≡◌, inl, inr, refl, sym, subst, ◌∙◌, List, some, ℤ, pos, Bool, true,
  false, arith, eq_ℤ, lt_ℤ, if◌then◌else◌,
}
use os_ex.Checked.{pass, int_max, increment_ℤ}
use os_ex.Scheduler.{success}
use os_ex.Uthreads.{Call, get_total_quantums}
use os_ex.Sample.{Loop, thread1_loop, thread2_loop}
use os_ex.Machine.{System}
use os_ex.Program.Outcomes.{Answers}
use os_ex.Program.{
  Op, read_start, test, take, compare, ask_tid, ask_own, ask_quantums, ask_total, print, flush,
  count, invoke, say, Frame, begin, call_of, answered, entered, main_frame,
}
use os_ex.Program.Statements.{IsEntry, AreOps, ops-AreOps}

-- After at most `k` statements and signals `i` and `j` have not grown larger than this.
pub record Sound (k : ℕ) (f : Frame) : Type 0 where
  pub i_value : ℕ
  pub i_eq : f.i ≡ pos i_value
  pub i_le : i_value ≤ suc k
  pub j_value : ℕ
  pub j_eq : f.j ≡ pos j_value
  pub j_le : j_value ≤ k + 300
  pub ops_known : AreOps f.todo

pub Sound-suc : {k : ℕ} {f : Frame} → Sound k f → Sound (suc k) f
Sound-suc w = record {
  i_value = w.i_value;
  i_eq = w.i_eq;
  i_le = omega (arith, w.i_le);
  j_value = w.j_value;
  j_eq = w.j_eq;
  j_le = omega (arith, w.j_le);
  ops_known = w.ops_known;
}

-- What a result must be for the frame that takes it.
abbrev pub Fits : ℕ → Op → ℤ → Type 0
Fits k read_start n = (m : ℕ) × (n ≡ pos m) × (m ≤ suc k)
Fits k take n = (m : ℕ) × (n ≡ pos m) × (m ≤ suc k)
Fits k _ n = Unit {0}

pub success-Fits : (k : ℕ) (op : Op) → Fits k op success
success-Fits k read_start = (0, refl, omega arith)
success-Fits k test = tt
success-Fits k take = (0, refl, omega arith)
success-Fits k compare = tt
success-Fits k ask_tid = tt
success-Fits k ask_own = tt
success-Fits k ask_quantums = tt
success-Fits k ask_total = tt
success-Fits k (invoke c) = tt
success-Fits k print = tt
success-Fits k flush = tt
success-Fits k count = tt
success-Fits k (say m) = tt

total_fits :
    {k : ℕ} {c : Call} (s : System) (n : ℤ)
    → get_total_quantums ≡ c
    → Answers c s n
    → s.total_quantoms ≤ suc k
    → (m : ℕ) × (n ≡ pos m) × (m ≤ suc k)
total_fits s n e a h = (s.total_quantoms, subst (λ c. Answers c s n) (sym e) a, h)

pub Answers-Fits :
    {k : ℕ} {c : Call} (s : System) (n : ℤ) (op : Op) (f : Frame)
    → call_of op f ≡ some c
    → Answers c s n
    → s.total_quantoms ≤ suc k
    → Fits k op n
unfolding call_of
Answers-Fits s n read_start f e a h = total_fits s n (cc) a h
Answers-Fits s n test f e a h = tt
Answers-Fits s n take f e a h = total_fits s n (cc) a h
Answers-Fits s n compare f e a h = tt
Answers-Fits s n ask_tid f e a h = tt
Answers-Fits s n ask_own f e a h = tt
Answers-Fits s n ask_quantums f e a h = tt
Answers-Fits s n ask_total f e a h = tt
Answers-Fits s n (invoke c) f e a h = tt
Answers-Fits s n print f e a h = tt
Answers-Fits s n flush f e a h = tt
Answers-Fits s n count f e a h = tt
Answers-Fits s n (say m) f e a h = tt

module _ {k : ℕ} {f : Frame} (w : Sound k f) where
  todo_Sound : (f' : Frame) → f'.i ≡ f.i → f'.j ≡ f.j → AreOps f'.todo → Sound (suc k) f'
  todo_Sound f' i j a = record {
    i_value = w.i_value;
    i_eq = i ∙ w.i_eq;
    i_le = omega (arith, w.i_le);
    j_value = w.j_value;
    j_eq = j ∙ w.j_eq;
    j_le = omega (arith, w.j_le);
    ops_known = a;
  }

  read_Sound :
      (n : ℤ) (rest : List Op)
      → AreOps rest
      → (m : ℕ) × (n ≡ pos m) × (m ≤ suc k)
      → Sound (suc k) (record f { i = n; todo = rest })
  read_Sound n rest a (m, e, h) = record {
    i_value = m;
    i_eq = e;
    i_le = omega (arith, h);
    j_value = w.j_value;
    j_eq = w.j_eq;
    j_le = omega (arith, w.j_le);
    ops_known = a;
  }

  AreOps-if : (b : Bool) (xs ys : List Op) → AreOps xs → AreOps ys → AreOps (if b then xs else ys)
  AreOps-if true xs ys a a' = a
  AreOps-if false xs ys a a' = a'

  pub answered-Sound :
      (op : Op) (n : ℤ) (rest : List Op)
      → AreOps rest
      → Fits k op n
      → Sound (suc k) (answered op n rest f)
  unfolding answered
  answered-Sound read_start n rest a h = read_Sound n rest a h
  answered-Sound test n rest a h =
      todo_Sound _ refl refl (AreOps-if (lt_ℤ f.i n) _ _ (tt, (tt, a)) (tt, a))
  answered-Sound take n rest a h = read_Sound n rest a h
  answered-Sound compare n rest a h =
      todo_Sound _ refl refl (AreOps-if (eq_ℤ f.i n) _ _ (ops-AreOps f.loop f.i) a)
  answered-Sound ask_tid n rest a h = todo_Sound _ refl refl a
  answered-Sound ask_own n rest a h = todo_Sound _ refl refl a
  answered-Sound ask_quantums n rest a h = todo_Sound _ refl refl a
  answered-Sound ask_total n rest a h = todo_Sound _ refl refl a
  answered-Sound (invoke c) n rest a h = todo_Sound _ refl refl a
  answered-Sound print n rest a h = Sound-suc w
  answered-Sound flush n rest a h = Sound-suc w
  answered-Sound count n rest a h = Sound-suc w
  answered-Sound (say m) n rest a h = Sound-suc w

  pub rest_Sound : (rest : List Op) → AreOps rest → Sound (suc k) (record f { todo = rest })
  rest_Sound rest a = todo_Sound _ refl refl a

  -- The increments stay within an int.
  pub count_Sound :
      (rest : List Op)
      → AreOps rest
      → k + 301 < int_max
      → (i : ℕ) × (j : ℕ) × (f.i ≡ pos i)
        × (f.j ≡ pos j)
        × (increment_ℤ f.i ≡ pass (pos (suc i)))
        × (increment_ℤ f.j ≡ pass (pos (suc j)))
        × Sound (suc k) (record f { i = pos (suc i); j = pos (suc j); todo = rest })
  count_Sound rest a h = (
    w.i_value,
    w.j_value,
    w.i_eq,
    w.j_eq,
    rw w.i_eq (ground (arith, w.i_le)),
    rw w.j_eq (ground (arith, w.j_le)),
    record {
      i_value = suc w.i_value;
      i_eq = refl;
      i_le = omega (arith, w.i_le);
      j_value = suc w.j_value;
      j_eq = refl;
      j_le = omega (arith, w.j_le);
      ops_known = a;
    },
  )

begin-Sound : (k : ℕ) (l : Loop) (j : ℕ) → j ≤ k + 300 → Sound k (begin l (pos j))
begin-Sound k l j h = record {
  i_value = 0;
  i_eq = refl;
  i_le = omega arith;
  j_value = j;
  j_eq = refl;
  j_le = h;
  ops_known = (tt, tt);
}

pub entered-Sound : (k e : ℕ) → IsEntry e → (f : Frame) × (entered e ≡ pass f) × Sound k f
unfolding entered
entered-Sound k e (inl h) =
    (begin thread1_loop (pos 300), rw h refl, begin-Sound k thread1_loop 300 (omega arith))
entered-Sound k e (inr h) =
    (begin thread2_loop (pos 200), rw h refl, begin-Sound k thread2_loop 200 (omega arith))

pub main_frame-Sound : Sound 0 main_frame
unfolding main_frame
main_frame-Sound = record {
  i_value = 1;
  i_eq = refl;
  i_le = omega arith;
  j_value = 100;
  j_eq = refl;
  j_le = omega arith;
  ops_known = tt;
}
