-- ===== src/Pin/Outermost.antt =====
-- Which functions enter the kernel, by the callbacks alone, and that the maps of
-- ExtractImpactfulFunCall follow them.
use slimmer.Base.{
  ℕ, zero, suc, ◌≡◌, refl, ◌∙◌, ap, ℤ, pos, negsuc, Bool, true, false, ◌&&◌, ◌||◌, ◌==◌, List, [],
  ◌∷◌, ◌++◌, if◌then◌else◌, map_at, map_at-set, map_set, set_count, set_count-insert, equiv,
  equiv_iff, nat_order, pair_order, Bool-cases, inl, inr, arith,
}
use slimmer.Pin.{
  Callback, before_call, after_call, syscall_entry, PinEvent, call, return, syscall, incr, decr,
  is_zero, is_one, depth_of,
}
use slimmer.Pin.Calls.{State, stack, called, returned, system_call, pop_to, popped, note_top}
use slimmer.Pin.Reading.{apply_event}

-- For each thread how deep it is in functions that are not instrumented, and the outermost of them.
abbrev pub Threads : Type 0
Threads = ℕ → ℤ × ℕ

abbrev pub none_running : Threads
none_running t = (pos 0, 0)

abbrev pub running : Callback → Threads → Threads
running (before_call t fun) o u =
    if equiv t u then (incr (o u).0, if is_zero (o u).0 then fun else (o u).1) else o u
running (after_call t fun) o u = if equiv t u then (decr (o u).0, (o u).1) else o u
running (syscall_entry t) o u = o u

abbrev is_inside : ℤ → Bool
is_inside (pos (suc n)) = true
is_inside _ = false

abbrev pub enters : Threads → Callback → ℕ → Bool
enters o (syscall_entry t) fun = is_inside (o t).0 && equiv (o t).1 fun
enters o _ fun = false

-- A system call was entered while `fun` was the outermost function of its thread.
abbrev pub is_impactful : Threads → List Callback → ℕ → Bool
is_impactful o [] fun = false
is_impactful o (c ∷ cs) fun = enters o c fun || is_impactful (running c o) cs fun

-- What the Pin tool appends at a callback, and the depths behind it.
abbrev pub emitted : Callback → List (ℕ × ℤ) → List PinEvent
emitted (before_call t fun) pdepth =
    if is_one (incr (depth_of pdepth t)) then call t fun ∷ [] else []
emitted (after_call t fun) pdepth =
    if is_zero (decr (depth_of pdepth t)) then return t fun ∷ [] else []
emitted (syscall_entry t) pdepth = if is_zero (depth_of pdepth t) then [] else syscall t ∷ []

abbrev pub depths : Callback → List (ℕ × ℤ) → List (ℕ × ℤ)
depths (before_call t fun) pdepth = map_set pdepth t (incr (depth_of pdepth t))
depths (after_call t fun) pdepth = map_set pdepth t (decr (depth_of pdepth t))
depths (syscall_entry t) pdepth = pdepth

abbrev pub all_emitted : List Callback → List (ℕ × ℤ) → List PinEvent
all_emitted [] pdepth = []
all_emitted (c ∷ cs) pdepth = emitted c pdepth ++ all_emitted cs (depths c pdepth)

abbrev pub apply_all : List PinEvent → State → State
apply_all [] s = s
apply_all (e ∷ es) s = apply_all es (apply_event e s)

-- The reader's stack of a thread: the outermost function alone, where one runs.
abbrev Shows : ℤ → ℕ → List (ℕ × ℕ) → Type 0
Shows (pos (suc n)) fun st = (k : ℕ) × (st ≡ (fun, k) ∷ [])
Shows _ fun st = st ≡ []

pub record Agrees (o : Threads) (pdepth : List (ℕ × ℤ)) (s : State) : Type 0 where
  pub same_depth : (u : ℕ) → depth_of pdepth u ≡ (o u).0
  pub shown : (u : ℕ) → Shows (o u).0 (o u).1 (stack s u)

shows_call :
    (d : ℤ) (f fun k : ℕ) (st : List (ℕ × ℕ))
    → Shows d f st
    → Shows (incr d) (if is_zero d then fun else f) (if is_one (incr d) then (fun, k) ∷ st else st)
shows_call (pos zero) f fun k st h = (k, ap (λ (l : List (ℕ × ℕ)). (fun, k) ∷ l) h)
shows_call (pos (suc n)) f fun k st h = h
shows_call (negsuc zero) f fun k st h = h
shows_call (negsuc (suc n)) f fun k st h = h

-- A return leaves nothing behind, whichever function it names.
shows_return :
    (d : ℤ) (f fun : ℕ) (st : List (ℕ × ℕ))
    → Shows d f st
    → Shows (decr d) f (if is_zero (decr d) then popped (pop_to fun st) else st)
shows_return (pos zero) f fun st h = h
shows_return (pos (suc zero)) f fun st (k, h) =
    rw h (elim (Bool-cases (f == fun)) [ inl c ↦ rw c refl | inr c ↦ rw c refl ])
shows_return (pos (suc (suc n))) f fun st h = h
shows_return (negsuc n) f fun st h = h

counts_top :
    (d : ℤ) (f : ℕ) (st : List (ℕ × ℕ)) (funs : List ℕ) (g : ℕ)
    → Shows d f st
    → set_count (if is_zero d then funs else note_top st funs) g
      ≡ (is_inside d && equiv f g) || set_count funs g
counts_top (pos zero) f st funs g h = refl
counts_top (pos (suc n)) f st funs g (k, h) = rw h (set_count-insert funs f g)
counts_top (negsuc n) f st funs g h = rw h refl

stack_after_call :
    (c : Bool) (t fun : ℕ) (s : State) (u : ℕ)
    → stack (apply_all (if c then call t fun ∷ [] else []) s) u ≡ (
        if equiv t u
        then (if c then (fun, map_at 0 s.fun_count (t, fun)) ∷ stack s t else stack s t)
        else stack s u)
unfolding called
stack_after_call true t fun s u = map_at-set [] s.fun_stack t u _
stack_after_call false t fun s u = elim (Bool-cases (equiv t u)) [
  | inl c ↦ rw (c, (equiv_iff t u).0 c) refl
  | inr c ↦ rw c refl
]

stack_after_return :
    (c : Bool) (t fun : ℕ) (s : State) (u : ℕ)
    → stack (apply_all (if c then return t fun ∷ [] else []) s) u ≡ (
        if equiv t u then (if c then popped (pop_to fun (stack s t)) else stack s t) else stack s u)
unfolding returned
stack_after_return true t fun s u = map_at-set [] s.fun_stack t u _
stack_after_return false t fun s u = elim (Bool-cases (equiv t u)) [
  | inl c ↦ rw (c, (equiv_iff t u).0 c) refl
  | inr c ↦ rw c refl
]

depths-same :
    (c : Callback) (o : Threads) (pdepth : List (ℕ × ℤ))
    → ((u : ℕ) → depth_of pdepth u ≡ (o u).0)
    → (u : ℕ) → depth_of (depths c pdepth) u ≡ (running c o u).0
depths-same (before_call t fun) o pdepth h u =
    map_at-set (pos 0) pdepth t u _ ∙ elim (Bool-cases (equiv t u)) [
      | inl c ↦ rw (c, (equiv_iff t u).0 c, h u) refl
      | inr c ↦ rw c (h u)
    ]
depths-same (after_call t fun) o pdepth h u =
    map_at-set (pos 0) pdepth t u _ ∙ elim (Bool-cases (equiv t u)) [
      | inl c ↦ rw (c, (equiv_iff t u).0 c, h u) refl
      | inr c ↦ rw c (h u)
    ]
depths-same (syscall_entry t) o pdepth h u = h u

stacks-shown :
    (c : Callback) (o : Threads) (pdepth : List (ℕ × ℤ)) (s : State)
    → Agrees o pdepth s
    → (u : ℕ) → Shows (running c o u).0 (running c o u).1 (stack (apply_all (emitted c pdepth) s) u)
stacks-shown (before_call t fun) o pdepth s h u =
    rw (stack_after_call (is_one (incr (depth_of pdepth t))) t fun s u, h.same_depth t)
      (elim (Bool-cases (equiv t u)) [
        | inl c ↦
            rw (c, ← (equiv_iff t u).0 c) (shows_call (o t).0 (o t).1 fun _ (stack s t) (h.shown t))
        | inr c ↦ rw c (h.shown u)
      ])
stacks-shown (after_call t fun) o pdepth s h u =
    rw (stack_after_return (is_zero (decr (depth_of pdepth t))) t fun s u, h.same_depth t)
      (elim (Bool-cases (equiv t u)) [
        | inl c ↦
            rw (c, ← (equiv_iff t u).0 c) (shows_return (o t).0 (o t).1 fun (stack s t) (h.shown t))
        | inr c ↦ rw c (h.shown u)
      ])
stacks-shown (syscall_entry t) o pdepth s h u = elim (Bool-cases (is_zero (depth_of pdepth t))) [
  | inl c ↦ rw c (h.shown u)
  | inr c ↦ rw c (unfold system_call in h.shown u)
]

entered :
    (c : Callback) (o : Threads) (pdepth : List (ℕ × ℤ)) (s : State) (fun : ℕ)
    → Agrees o pdepth s
    → set_count (apply_all (emitted c pdepth) s).impactful_fun_call fun
      ≡ enters o c fun || set_count s.impactful_fun_call fun
entered (before_call t f) o pdepth s fun h = elim (Bool-cases (is_one (incr (depth_of pdepth t)))) [
  | inl c ↦ rw c (unfold called in refl)
  | inr c ↦ rw c refl
]
entered (after_call t f) o pdepth s fun h = elim (Bool-cases (is_zero (decr (depth_of pdepth t)))) [
  | inl c ↦ rw c (unfold returned in refl)
  | inr c ↦ rw c refl
]
entered (syscall_entry t) o pdepth s fun h =
    noted (is_zero (depth_of pdepth t))
    ∙ ap
        (λ (d : ℤ).
          set_count
            (if is_zero d then s.impactful_fun_call else note_top (stack s t) s.impactful_fun_call)
            fun)
        (h.same_depth t)
    ∙ counts_top (o t).0 (o t).1 (stack s t) s.impactful_fun_call fun (h.shown t)
  where
    noted :
        (c : Bool)
        → set_count (apply_all (if c then [] else syscall t ∷ []) s).impactful_fun_call fun
          ≡ set_count
              (if c then s.impactful_fun_call else note_top (stack s t) s.impactful_fun_call)
              fun
    noted true = refl
    noted false = unfold system_call in refl

or_shift : (a b c : Bool) → b || (a || c) ≡ (a || b) || c
or_shift a b c = ground arith

apply_all-append :
    (es fs : List PinEvent) (s : State) → apply_all (es ++ fs) s ≡ apply_all fs (apply_all es s)
apply_all-append [] fs s = refl
apply_all-append (e ∷ es) fs s = apply_all-append es fs (apply_event e s)

-- The events of the Pin tool lead the reader to the functions that enter the kernel.
pub all_emitted_lem :
    (cs : List Callback) (o : Threads) (pdepth : List (ℕ × ℤ)) (s : State) (fun : ℕ)
    → Agrees o pdepth s
    → set_count (apply_all (all_emitted cs pdepth) s).impactful_fun_call fun
      ≡ is_impactful o cs fun || set_count s.impactful_fun_call fun
all_emitted_lem [] o pdepth s fun h = refl
all_emitted_lem (c ∷ cs) o pdepth s fun h =
    let next : Agrees (running c o) (depths c pdepth) (apply_all (emitted c pdepth) s) = record {
      same_depth = depths-same c o pdepth h.same_depth;
      shown = stacks-shown c o pdepth s h;
    } in
    ap (λ (t : State). set_count t.impactful_fun_call fun)
      (apply_all-append (emitted c pdepth) (all_emitted cs (depths c pdepth)) s)
    ∙ all_emitted_lem cs (running c o) (depths c pdepth) (apply_all (emitted c pdepth) s) fun next
    ∙ ap (λ (b : Bool). is_impactful (running c o) cs fun || b) (entered c o pdepth s fun h)
    ∙ or_shift (enters o c fun) (is_impactful (running c o) cs fun)
        (set_count s.impactful_fun_call fun)
