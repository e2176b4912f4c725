-- ===== src/Solver/Record.antt =====
-- `_result_from_record`: what a line of the daemon's output says of a slice.
use minebtx.Prelude.{
  String, ◌≡◌, refl, Bool, true, false, not, Option, none, some, List, [], if◌then◌else◌,
}
use minebtx.Prelude.Int.{ℤ, pos}
use minebtx.Py.Result.{Result, ok, err, attribute_error, value_error, ◌>>=◌}
use minebtx.Py.Value.{
  Value, Decimal, Fields, null, bool, int, float, str, list, dict, find, find_or, truthy, or_else,
  is_none,
}
use minebtx.Py.Text.{codes, isdigit, lstrip_minus}
use minebtx.Py.Number.{to_int, to_float, int_of_text}
use minebtx.Solver.Challenge.{SolveChallenge, SolveResult}
pub mod Laws

-- `int(v) if v is not None else None`
abbrev pub to_int_or_none : Value → Result (Option ℤ)
to_int_or_none v = if is_none v then ok none else (do n ← to_int v; ok (some n))

-- A nonce in text is hexadecimal unless it is all decimal digits.
abbrev pub text_nonce : Value → Result Value
text_nonce (str s) =
    if not (isdigit (lstrip_minus (codes s)))
    then (do n ← int_of_text 16 s; ok (int n))
    else (do n ← int_of_text 10 s; ok (int n))
text_nonce v = ok v

abbrev pub zero_seconds : Decimal
zero_seconds = record { mantissa = pos 0; scale = 0 }

-- The position where the solver stopped.
abbrev pub nonce_end_of : Fields → Value
nonce_end_of rec = or_else (find_or "nonce64_end" null rec) (find_or "nonce64" null rec)

abbrev pub nonce_of : Fields → Value
nonce_of rec =
    let nonce = find_or "nonce64" null rec in
    if is_none nonce then find_or "nonce" null rec else nonce

abbrev pub not_found : ℤ → Decimal → Fields → Option ℤ → SolveResult
not_found tries elapsed rec nonce_end = record {
  found = false;
  tries_used = tries;
  elapsed_s = elapsed;
  nonce = none;
  digest_hex = null;
  ntime = none;
  raw_output = some rec;
  is_block = true;
  nonce_end = nonce_end;
}

found_nonce : Fields → SolveChallenge → SolveResult → Result SolveResult
found_nonce rec challenge base = do
  value ← text_nonce (nonce_of rec)
  nonce ← to_int_or_none value
  ok (record base {
    found = true;
    nonce = nonce;
    digest_hex = or_else (find_or "digest" null rec) (find_or "matmul_digest" null rec);
    ntime = some challenge.time;
    is_block = truthy (find_or "is_block" (bool true) rec);
    nonce_end = none;
  })

unfoldable pub result_of_fields : Fields → SolveChallenge → Result SolveResult
unfolding found_nonce
result_of_fields rec challenge = do
  let found = truthy (find_or "found" (bool false) rec)
  tries ← to_int (find_or "tries_used" (int (pos 0)) rec)
  elapsed ← to_float (find_or "elapsed_s" (float zero_seconds) rec)
  nonce_end ← to_int_or_none (nonce_end_of rec)
  let base = not_found tries elapsed rec nonce_end
  if found then found_nonce rec challenge base else ok base

unfoldable pub result_from_record : Value → SolveChallenge → Result SolveResult
unfolding result_of_fields
result_from_record (dict rec) challenge = result_of_fields rec challenge
result_from_record v challenge = err attribute_error

-- What a slice without an answer reports.
abbrev pub no_answer : SolveResult
no_answer = record {
  found = false;
  tries_used = pos 0;
  elapsed_s = zero_seconds;
  nonce = none;
  digest_hex = null;
  ntime = none;
  raw_output = none;
  is_block = true;
  nonce_end = none;
}
