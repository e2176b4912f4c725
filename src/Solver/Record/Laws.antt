-- ===== src/Solver/Record/Laws.antt =====
-- What a slice's result says of the record it was read from.
use minebtx.Prelude.{String, ◌≡◌, refl, Bool, true, false, Option, none, some, arith, if◌then◌else◌}
use minebtx.Prelude.Int.{ℤ, pos}
use minebtx.Py.Result.{Result, ok, err, value_error, >>=-eq-ok}
use minebtx.Py.Value.{Decimal, Fields, null, bool, int, float, str, dict, find, find_or, truthy}
use minebtx.Py.Number.{to_int, to_float, int_of_text}
use minebtx.Solver.Challenge.{SolveChallenge, SolveResult}
use minebtx.Solver.Record.{
  to_int_or_none, nonce_end_of, found_nonce, result_of_fields, result_from_record, zero_seconds,
  text_nonce, nonce_of, not_found,
}

found_nonce-shape :
    (rec : Fields) (c : SolveChallenge) (base r : SolveResult)
    → found_nonce rec c base ≡ ok r
    → (r.found ≡ true)
      × (r.nonce_end ≡ none)
      × (r.ntime ≡ some c.time)
      × (r.raw_output ≡ base.raw_output)
unfolding found_nonce
found_nonce-shape rec c base r h =
    let (v, _, h1) = >>=-eq-ok (text_nonce (nonce_of rec)) _ h in
    let (n, _, h2) = >>=-eq-ok (to_int_or_none v) _ h1 in ground arith

-- The last step of the reading, for either verdict.
finish : Fields → SolveChallenge → Bool → SolveResult → Result SolveResult
finish rec c found base = if found then found_nonce rec c base else ok base

read_fields :
    (rec : Fields) (c : SolveChallenge) (r : SolveResult)
    → result_from_record (dict rec) c ≡ ok r
    → (tries : ℤ) × (elapsed : Decimal) × (stop : Option ℤ) × (to_int_or_none (nonce_end_of rec)
        ≡ ok stop)
      × (finish rec c (truthy (find_or "found" (bool false) rec)) (not_found tries elapsed rec stop)
          ≡ ok r)
unfolding result_from_record finish
read_fields rec c r h =
    let (tries, _, h1) = >>=-eq-ok (to_int (find_or "tries_used" (int (pos 0)) rec)) _ h in
    let (elapsed, _, h2) =
      >>=-eq-ok (to_float (find_or "elapsed_s" (float zero_seconds) rec)) _ h1 in
    let (stop, e, h3) = >>=-eq-ok (to_int_or_none (nonce_end_of rec)) _ h2 in
    (tries, elapsed, stop, e, h3)

-- The result of a record that reports a share and was read has the job's time and the record, but no
-- position, whatever position the record has.
pub result_from_record-found :
    (rec : Fields) (c : SolveChallenge) (r : SolveResult)
    → result_from_record (dict rec) c ≡ ok r
    → truthy (find_or "found" (bool false) rec) ≡ true
    → (r.found ≡ true) × (r.nonce_end ≡ none) × (r.ntime ≡ some c.time) × (r.raw_output ≡ some rec)
unfolding finish
result_from_record-found rec c r h found =
    let (tries, elapsed, stop, _, done) = read_fields rec c r h in
    found_nonce-shape rec c (not_found tries elapsed rec stop) r (rw found at done)

-- The result of a record that reports no share and was read has no nonce, and the position that the
-- record has.
result_from_record-not_found :
    (rec : Fields) (c : SolveChallenge) (r : SolveResult)
    → result_from_record (dict rec) c ≡ ok r
    → truthy (find_or "found" (bool false) rec) ≡ false
    → (r.found ≡ false)
      × (r.nonce ≡ none)
      × (r.raw_output ≡ some rec)
      × (to_int_or_none (nonce_end_of rec) ≡ ok r.nonce_end)
unfolding finish
result_from_record-not_found rec c r h lost =
    let (tries, elapsed, stop, e, done) = read_fields rec c r h in
    let same : not_found tries elapsed rec stop ≡ r = ground (arith, rw lost at done) in
    (cc same, cc same, cc same, rw (← same) e)

text_position :
    (rec : Fields) (s : String)
    → truthy (find_or "nonce64_end" null rec) ≡ false
    → find "nonce64" rec ≡ some (str s)
    → int_of_text 10 s ≡ err value_error
    → to_int_or_none (nonce_end_of rec) ≡ err value_error
unfolding to_int
text_position rec s no_end nonce bad =
    let position : nonce_end_of rec ≡ str s = ground arith in rw position (simp bad)

-- Where the nonce is text that is no decimal number, such as hexadecimal digits, the record has no
-- other position, and its other numbers can be read, the slice raises a ValueError.
result_from_record-hex :
    (rec : Fields) (c : SolveChallenge) (s : String) {tries : ℤ} {elapsed : Decimal}
    → to_int (find_or "tries_used" (int (pos 0)) rec) ≡ ok tries
    → to_float (find_or "elapsed_s" (float zero_seconds) rec) ≡ ok elapsed
    → truthy (find_or "nonce64_end" null rec) ≡ false
    → find "nonce64" rec ≡ some (str s)
    → int_of_text 10 s ≡ err value_error
    → result_from_record (dict rec) c ≡ err value_error
unfolding result_from_record
result_from_record-hex rec c s et ee no_end nonce bad =
    rw (et, result_of_fields) (rw ee (rw (text_position rec s no_end nonce bad) refl))
