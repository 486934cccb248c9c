-- ===== src/Merge/Advance.antt =====
-- Where a frame comes to rest: inside its basic block, and behind a return only if it is left.
use mathlib.Core.Option.{some-injective}
use slimmer.Base.{
  ℕ, zero, suc, ◌+◌, ◌-◌, ◌<◌, ◌≤◌, ◌≡◌, refl, sym, ◌∙◌, ap, Bool, true, false, ◌==◌, ==_iff,
  if◌then◌else◌, List, [], ◌∷◌, Option, none, some, ◌>>=◌, AllOf, just, AllOf->>=, AllOf-after,
  AllOf-with, AllOf-imp, length, drop, get_elem?, arith, Bool-cases, inl, inr,
}
use slimmer.Program.{Program, InstInfo, return_inst, inst_info}
use slimmer.Blocks.{IsProgram, inst_known}
use slimmer.Merge.Frames.{StackInfo}
use slimmer.Merge.Drain.{
  runs_on, scan, is_own_call, past_call, is_return, last_elem, last_bb, advance,
}

-- No return stands in front of `e`.
abbrev pub NoReturn : Program → List ℕ → ℕ → Type 0
NoReturn p insts e =
    (i id : ℕ) (info : InstInfo)
    → i < e
    → get_elem? insts i ≡ some id
    → inst_info p id ≡ some info
    → info.type ≡ return_inst
    → ⊥

-- What `advance` gives for a frame.
pub record Advanced (p : Program) (info : StackInfo) (moved : ℕ × Bool) : Type 0 where
  pub insts : List ℕ
  pub body : get_elem? p.bb2ins info.bbid ≡ some insts
  pub forward : info.cur_index ≤ moved.0
  pub within : moved.0 ≤ length insts
  pub stays : moved.1 ≡ false → NoReturn p insts moved.0

scan_lem :
    (p : Program) (i : ℕ) (ids : List ℕ)
    → AllOf (λ e. (i ≤ e) × (e ≤ i + length ids)) (scan p i ids)
unfolding scan
scan_lem p i [] = just (omega arith, omega arith)
scan_lem p i (id ∷ ids) = AllOf-after (inst_info p id) (λ info.
    elim (Bool-cases (runs_on info.type)) [
      | inl c ↦ rw c (AllOf-imp (scan_lem p (suc i) ids) (λ e (a, b). (omega arith, omega arith)))
      | inr c ↦ rw c (just (omega arith, omega arith))
    ])

lt-length_of_get : (insts : List ℕ) (e id : ℕ) → get_elem? insts e ≡ some id → e < length insts
lt-length_of_get [] e id h = cc
lt-length_of_get (x ∷ xs) zero id h = omega arith
lt-length_of_get (x ∷ xs) (suc e) id h = omega (arith, lt-length_of_get xs e id h)

past_call_lem :
    (p : Program) (insts : List ℕ) (e : ℕ)
    → e ≤ length insts
    → AllOf (λ e'. (e ≤ e') × (e' ≤ length insts)) (past_call p insts e)
unfolding past_call
past_call_lem p insts e h = by_elem (get_elem? insts e) refl
  where
    by_if :
        (c : Bool)
        → e < length insts
        → (e ≤ (if c then suc e else e)) × ((if c then suc e else e) ≤ length insts)
    by_if true m = (omega arith, omega arith)
    by_if false m = (omega arith, omega arith)

    by_elem :
        (o : Option ℕ)
        → get_elem? insts e ≡ o
        → AllOf
            (λ e'. (e ≤ e') × (e' ≤ length insts))
            (elim o [
              | none ↦ some e
              | some id ↦ do
                info ← inst_info p id
                some (if is_own_call info info.type then suc e else e)
            ])
    by_elem none q = just (omega arith, h)
    by_elem (some id) q =
        AllOf-after (inst_info p id)
          (λ info. just (by_if (is_own_call info info.type) (lt-length_of_get insts e id q)))

last_elem_at : (insts : List ℕ) (i : ℕ) → suc i ≡ length insts → last_elem insts ≡ get_elem? insts i
last_elem_at [] i h = absurd (omega arith)
last_elem_at (x ∷ []) zero h = refl
last_elem_at (x ∷ []) (suc i) h = absurd (omega arith)
last_elem_at (x ∷ y ∷ ys) zero h = absurd (omega arith)
last_elem_at (x ∷ y ∷ ys) (suc i) h = last_elem_at (y ∷ ys) i (omega arith)

true≢false : true ≡ false → ⊥
true≢false e = cc

-- If the last instruction of a finished block is no return, none of its instructions is.
last_bb_lem :
    (p : Program) (bb : ℕ) (insts : List ℕ) (e : ℕ)
    → IsProgram p
    → get_elem? p.bb2ins bb ≡ some insts
    → e ≤ length insts
    → AllOf (λ last. last ≡ false → NoReturn p insts e) (last_bb p insts e)
unfolding last_bb
last_bb_lem p bb insts e w body h = elim (Bool-cases (e == length insts)) [
  | inl c ↦ rw c (
      AllOf-with (last_elem insts) (λ idl el. AllOf-with (inst_info p idl) (λ infol known.
        just (λ no i id info m at k t.
          let (info', known', ends) = inst_known p bb i id w body at in
          let same_info : info' ≡ info = some-injective info' info (sym known' ∙ k) in
          let last : suc i ≡ length insts = ends (ap (λ (x : InstInfo). x.type) same_info ∙ t) in
          let same_id : idl ≡ id =
            some-injective idl id (sym el ∙ last_elem_at insts i last ∙ at) in
          let same : infol ≡ info =
            some-injective infol info (sym known ∙ ap (inst_info p) same_id ∙ k) in
          true≢false (sym (ap (λ (x : InstInfo). is_return x.type) same ∙ ap is_return t) ∙ no)))))
  | inr c ↦ rw c (
      just (λ _ i id info m at k t.
        let (info', known', ends) = inst_known p bb i id w body at in
        let same_info : info' ≡ info = some-injective info' info (sym known' ∙ k) in
        let last : suc i ≡ length insts = ends (ap (λ (x : InstInfo). x.type) same_info ∙ t) in
        let all : e ≡ length insts = omega arith in
        true≢false (sym ((==_iff e (length insts)).1 all) ∙ c)))
]

length-drop : (n : ℕ) (xs : List ℕ) → length (drop n xs) ≡ length xs - n
length-drop zero xs = omega arith
length-drop (suc n) [] = omega arith
length-drop (suc n) (x ∷ xs) = omega (arith, length-drop n xs)

pub advance_lem :
    (p : Program) (info : StackInfo)
    → IsProgram p
    → ((insts : List ℕ) → get_elem? p.bb2ins info.bbid ≡ some insts → info.cur_index ≤ length insts)
    → AllOf (Advanced p info) (advance p info)
unfolding advance
advance_lem p info w inside = AllOf-with (get_elem? p.bb2ins info.bbid) (λ insts body.
    AllOf->>= (scan_lem p info.cur_index (drop info.cur_index insts)) (λ e (a, b).
      let room : e ≤ length insts =
        omega (arith, length-drop info.cur_index insts, inside insts body) in
      AllOf->>= (past_call_lem p insts e room) (λ e' (c, d).
        AllOf->>= (last_bb_lem p info.bbid insts e' w body d) (λ last no.
          just (record {
            insts = insts;
            body = body;
            forward = omega arith;
            within = d;
            stays = no;
          })))))
