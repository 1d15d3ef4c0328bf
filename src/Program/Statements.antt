-- ===== src/Program/Statements.antt =====
-- The statements of main.cpp: which they are, and which call the library.
use os_ex.Prelude.{
  ℕ, ◌≡◌, ◌⊎◌, inl, inr, refl, sym, subst, List, [], ◌∷◌, ◌++◌, none, some, ℤ, pos, Bool, true,
  false, eq_ℤ,
}
use os_ex.Uthreads.{
  Call, spawn, terminate, block, resume, sleep, get_quantums, get_tid, get_total_quantums,
}
use os_ex.Sample.{
  Loop, main_loop, thread1_loop, thread2_loop, thread1_entry, thread2_entry, resumed_by_1,
  goes_to_sleep, blocked_by_0,
}
use os_ex.Machine.{System}
use os_ex.Program.Outcomes.{IsMild, Answers}
use os_ex.Program.{
  Op, read_start, test, take, compare, ask_tid, ask_own, ask_quantums, ask_total, print, flush,
  count, invoke, say, Frame, ops, when, report, call_of,
}

-- The functions that main.cpp starts threads at.
abbrev pub IsEntry : ℕ → Type 0
IsEntry e = (e ≡ thread1_entry) ⊎ (e ≡ thread2_entry)

abbrev pub IsAllowed : Call → Type 0
IsAllowed (spawn e) = IsEntry e
IsAllowed c = IsMild c

abbrev pub IsOp : Op → Type 0
IsOp (invoke c) = IsAllowed c
IsOp _ = Unit {0}

abbrev pub AreOps : List Op → Type 0
AreOps [] = Unit {0}
AreOps (op ∷ rest) = IsOp op × AreOps rest

-- A statement that takes the result of a call.
abbrev pub IsAsking : Op → Type 0
IsAsking print = ⊥
IsAsking flush = ⊥
IsAsking count = ⊥
IsAsking (say m) = ⊥
IsAsking _ = Unit {0}

AreOps-append : (xs ys : List Op) → AreOps xs → AreOps ys → AreOps (xs ++ ys)
AreOps-append [] ys a b = b
AreOps-append (op ∷ xs) ys (o, a) b = (o, AreOps-append xs ys a b)

-- The body of an `if` before the rest.
AreOps-when : (b : Bool) (xs ys : List Op) → AreOps xs → AreOps ys → AreOps (when b xs ++ ys)
AreOps-when true xs ys a b = AreOps-append xs ys a b
AreOps-when false xs ys a b = b

report-AreOps : (rest : List Op) → AreOps rest → AreOps (report rest)
report-AreOps rest a = (tt, (tt, (tt, (tt, (tt, a)))))

pub ops-AreOps : (l : Loop) (i : ℤ) → AreOps (ops l i)
unfolding ops
ops-AreOps main_loop i =
    let blocks : List Op =
      when (eq_ℤ i (pos 14)) (invoke (block (pos 2)) ∷ say blocked_by_0 ∷ []) ++ count ∷ [] in
    let spawns : List Op = when (eq_ℤ i (pos 11)) (invoke (spawn thread2_entry) ∷ []) ++ blocks in
    report-AreOps _ (
      AreOps-when (eq_ℤ i (pos 3)) (invoke (spawn thread1_entry) ∷ []) spawns (inl refl, tt)
        (AreOps-when (eq_ℤ i (pos 11)) (invoke (spawn thread2_entry) ∷ []) blocks (inr refl, tt)
          (AreOps-when (eq_ℤ i (pos 14)) (invoke (block (pos 2)) ∷ say blocked_by_0 ∷ [])
            (count ∷ []) (tt, (tt, tt)) (tt, tt))))
ops-AreOps thread1_loop i =
    let sleeps : List Op =
      when (eq_ℤ i (pos 17)) (say goes_to_sleep ∷ invoke (sleep (pos 1)) ∷ [])
      ++ flush ∷ count ∷ [] in
    report-AreOps _ (
      AreOps-when (eq_ℤ i (pos 25)) (invoke (resume (pos 2)) ∷ say resumed_by_1 ∷ []) sleeps
        (tt, (tt, tt))
        (AreOps-when (eq_ℤ i (pos 17)) (say goes_to_sleep ∷ invoke (sleep (pos 1)) ∷ [])
          (flush ∷ count ∷ []) (tt, ((λ e. cc), tt)) (tt, (tt, tt))))
ops-AreOps thread2_loop i = (tt, report-AreOps (flush ∷ []) (tt, tt))

-- A statement makes a call, or it is one of those that make none.
pub call_of-cases :
    (op : Op) (f : Frame)
    → IsOp op
    → ((c : Call) × (call_of op f ≡ some c) × IsAllowed c × IsAsking op) ⊎ (call_of op f ≡ none)
unfolding call_of
call_of-cases read_start f o = inl (get_total_quantums, refl, tt, tt)
call_of-cases test f o = inl (get_total_quantums, refl, tt, tt)
call_of-cases take f o = inl (get_total_quantums, refl, tt, tt)
call_of-cases compare f o = inl (get_total_quantums, refl, tt, tt)
call_of-cases ask_tid f o = inl (get_tid, refl, tt, tt)
call_of-cases ask_own f o = inl (get_tid, refl, tt, tt)
call_of-cases ask_quantums f o = inl (get_quantums f.own, refl, tt, tt)
call_of-cases ask_total f o = inl (get_total_quantums, refl, tt, tt)
call_of-cases (invoke c) f o = inl (c, refl, o, tt)
call_of-cases print f o = inr refl
call_of-cases flush f o = inr refl
call_of-cases count f o = inr refl
call_of-cases (say m) f o = inr refl

pub call_of-asking : (op : Op) (f : Frame) → IsAsking op → (c : Call) × (call_of op f ≡ some c)
unfolding call_of
call_of-asking read_start f a = (get_total_quantums, refl)
call_of-asking test f a = (get_total_quantums, refl)
call_of-asking take f a = (get_total_quantums, refl)
call_of-asking compare f a = (get_total_quantums, refl)
call_of-asking ask_tid f a = (get_tid, refl)
call_of-asking ask_own f a = (get_tid, refl)
call_of-asking ask_quantums f a = (get_quantums f.own, refl)
call_of-asking ask_total f a = (get_total_quantums, refl)
call_of-asking (invoke c) f a = (c, refl)
call_of-asking print f a = absurd a
call_of-asking flush f a = absurd a
call_of-asking count f a = absurd a
call_of-asking (say m) f a = absurd a

-- A statement of its own that calls the library.
abbrev pub IsInvoke : Op → Type 0
IsInvoke (invoke c) = Unit {0}
IsInvoke _ = ⊥

pub block-IsInvoke : (op : Op) (f : Frame) (n : ℤ) → call_of op f ≡ some (block n) → IsInvoke op
unfolding call_of
block-IsInvoke read_start f n e = absurd (cc)
block-IsInvoke test f n e = absurd (cc)
block-IsInvoke take f n e = absurd (cc)
block-IsInvoke compare f n e = absurd (cc)
block-IsInvoke ask_tid f n e = absurd (cc)
block-IsInvoke ask_own f n e = absurd (cc)
block-IsInvoke ask_quantums f n e = absurd (cc)
block-IsInvoke ask_total f n e = absurd (cc)
block-IsInvoke print f n e = absurd (cc)
block-IsInvoke flush f n e = absurd (cc)
block-IsInvoke count f n e = absurd (cc)
block-IsInvoke (invoke c) f n e = tt
block-IsInvoke (say m) f n e = absurd (cc)

pub sleep-IsInvoke : (op : Op) (f : Frame) (n : ℤ) → call_of op f ≡ some (sleep n) → IsInvoke op
unfolding call_of
sleep-IsInvoke read_start f n e = absurd (cc)
sleep-IsInvoke test f n e = absurd (cc)
sleep-IsInvoke take f n e = absurd (cc)
sleep-IsInvoke compare f n e = absurd (cc)
sleep-IsInvoke ask_tid f n e = absurd (cc)
sleep-IsInvoke ask_own f n e = absurd (cc)
sleep-IsInvoke ask_quantums f n e = absurd (cc)
sleep-IsInvoke ask_total f n e = absurd (cc)
sleep-IsInvoke print f n e = absurd (cc)
sleep-IsInvoke flush f n e = absurd (cc)
sleep-IsInvoke count f n e = absurd (cc)
sleep-IsInvoke (invoke c) f n e = tt
sleep-IsInvoke (say m) f n e = absurd (cc)

pub IsInvoke-IsAsking : (op : Op) → IsInvoke op → IsAsking op
IsInvoke-IsAsking (invoke c) h = tt
IsInvoke-IsAsking read_start h = absurd h
IsInvoke-IsAsking test h = absurd h
IsInvoke-IsAsking take h = absurd h
IsInvoke-IsAsking compare h = absurd h
IsInvoke-IsAsking ask_tid h = absurd h
IsInvoke-IsAsking ask_own h = absurd h
IsInvoke-IsAsking ask_quantums h = absurd h
IsInvoke-IsAsking ask_total h = absurd h
IsInvoke-IsAsking print h = absurd h
IsInvoke-IsAsking flush h = absurd h
IsInvoke-IsAsking count h = absurd h
IsInvoke-IsAsking (say m) h = absurd h

pub ask_tid_answer :
    {c : Call} (s : System) (n : ℤ) (op : Op) (f : Frame)
    → op ≡ ask_tid
    → call_of op f ≡ some c
    → Answers c s n
    → n ≡ pos s.running_thread_id
unfolding call_of
ask_tid_answer {c} s n op f i e a =
    let same : get_tid ≡ c = cc (rw i at e) in subst (λ c. Answers c s n) (sym same) a

pub IsAllowed-IsMild : (c : Call) → IsAllowed c → IsMild c
IsAllowed-IsMild (spawn e) a = tt
IsAllowed-IsMild (terminate tid) a = a
IsAllowed-IsMild (block tid) a = a
IsAllowed-IsMild (resume tid) a = a
IsAllowed-IsMild (sleep n) a = a
IsAllowed-IsMild (get_quantums tid) a = a
IsAllowed-IsMild get_tid a = a
IsAllowed-IsMild get_total_quantums a = a
