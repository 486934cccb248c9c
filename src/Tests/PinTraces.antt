-- ===== src/Tests/PinTraces.antt =====
-- Calls of functions that are not instrumented, from the Pin tool to print-bug, with a codec that
-- stores a block as it is.
use slimmer.Base.{ℕ, ◌≡◌, refl, true, false, List, [], ◌∷◌, some, set_count, nat_order, arith}
use slimmer.Trace.Iter.{Lz4}
use slimmer.Pin.{Callback, before_call, after_call, syscall_entry, pin_trace}
use slimmer.Pin.Calls.{extract_impactful_fun_call}
use slimmer.Pin.Outermost.{none_running, is_impactful}
use slimmer.Pin.RoundTrip.{extract-pin_trace}

abbrev stored : Lz4 200
stored = record {
  compress = λ block. block;
  decompress = λ block. some block;
  restores = λ block h. refl;
  fits = λ block h. omega (arith, h);
}

-- Function 501 is called by 500, and 600 makes no system call.
abbrev calls : List Callback
calls =
    before_call 7 500
    ∷ before_call 7 501
    ∷ syscall_entry 7
    ∷ before_call 8 600
    ∷ after_call 7 501
    ∷ after_call 7 500
    ∷ syscall_entry 7
    ∷ after_call 8 600
    ∷ []

outermost_impactful : is_impactful none_running calls 500 ≡ true
outermost_impactful = refl

inner_not : is_impactful none_running calls 501 ≡ false
inner_not = refl

quiet_not : is_impactful none_running calls 600 ≡ false
quiet_not = refl

extract-pin_trace_example :
    (file : List ℕ) × (pin_trace stored 150 calls ≡ some file)
    × (funs : List ℕ) × (extract_impactful_fun_call stored.decompress [] file ≡ some funs)
    × ((fun : ℕ) → set_count funs fun ≡ is_impactful none_running calls fun)
extract-pin_trace_example = extract-pin_trace stored 150 [] calls (omega arith) (omega arith) (
  (omega arith, omega arith),
  (
    (omega arith, omega arith),
    (
      omega arith,
      (
        (omega arith, omega arith),
        (
          (omega arith, omega arith),
          ((omega arith, omega arith), (omega arith, ((omega arith, omega arith), tt))),
        ),
      ),
    ),
  ),
)
