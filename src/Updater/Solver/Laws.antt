-- ===== src/Updater/Solver/Laws.antt =====
-- Which binary an update leaves, and what the hard floor does.
use minebtx.Prelude.{
  String, ◌≡◌, ◌≢◌, refl, ap, ◌⊎◌, inl, inr, Bool, true, false, not, ◌||◌, Option, none, some,
  Bool-cases, str_eq, eq_iff, arith, if◌then◌else◌,
}
use minebtx.Py.Result.{Result, ok, err, update_required, Error}
use minebtx.Py.Value.{Value, null, str}
use minebtx.Py.Assoc.{Assoc}
use minebtx.Updater.Manifest.{
  Fetch, unreachable, malformed, fetched, Host, Entry, detect_platform_key, resolve_manifest_entry,
}
use minebtx.Updater.Solver.{
  Download, Binary, failed, got, raised, same_digest, download_and_verify, below_floor, place,
  valid_sha, valid_url, update_to, update_entry, with_entry, with_manifest, opted_out,
  maybe_update_solver,
}

-- A binary that is not touched, and not reported as updated.
abbrev pub Untouched : Binary → Result Bool × Binary → Type 0
Untouched local (r, binary) = (binary ≡ local) × (r ≢ ok true)

-- A binary that was replaced by a download with this digest.
abbrev pub Replaced : Download → String → Result Bool × Binary → Type 0
Replaced download sha p = (p ≡ (ok true, some sha)) × (download ≡ got sha)

-- What an update to an entry leaves.
abbrev pub Updated : Download → Entry → Binary → Result Bool × Binary → Type 0
Updated download entry local p =
    Untouched local p
    ⊎ ((sha : String) × (valid_sha entry.sha256 ≡ some sha) × Replaced download sha p)

-- What an update by a manifest leaves.
abbrev pub Permitted : Option String → Fetch → Download → Binary → Result Bool × Binary → Type 0
Permitted key fetch download local p =
    Untouched local p
    ⊎ ((v : Value) × (entry : Entry) × (sha : String) × (fetch ≡ fetched v)
        × (resolve_manifest_entry key v ≡ ok (some entry))
        × (valid_sha entry.sha256 ≡ some sha)
        × Replaced download sha p)

ok-Untouched : (local : Binary) → Untouched local (ok false, local)
ok-Untouched local = (refl, λ e. cc)

err-Untouched : (local : Binary) (e : Error) → Untouched local (err e, local)
err-Untouched local e = (refl, λ h. cc)

refused-Untouched :
    (b : Bool) (local : Binary)
    → Untouched local (if b then err update_required else ok false, local)
refused-Untouched true local = err-Untouched local update_required
refused-Untouched false local = ok-Untouched local

place-Replaced :
    (required : Value) (installs : Bool) (sha : String) (local : Binary) (download : Download)
    (b : Bool)
    → (b ≡ true → download ≡ got sha)
    → Untouched local (place required installs sha local (ok b))
      ⊎ Replaced download sha (place required installs sha local (ok b))
place-Replaced required true sha local download true h = inr (refl, h refl)
place-Replaced required false sha local download true h = inl (ok-Untouched local)
place-Replaced required installs sha local download false h =
    inl (refused-Untouched (below_floor required local) local)

verified-Replaced :
    (required : Value) (installs : Bool) (sha : String) (local : Binary) (download : Download)
    → Untouched local (place required installs sha local (download_and_verify download sha))
      ⊎ Replaced download sha (place required installs sha local (download_and_verify download sha))
unfolding download_and_verify
verified-Replaced required installs sha local failed =
    place-Replaced required installs sha local failed false (λ h. cc)
verified-Replaced required installs sha local (got s) =
    place-Replaced required installs sha local (got s) (str_eq s sha)
      (λ h. ap got ((eq_iff s sha).0 h))
verified-Replaced required installs sha local (raised e) = inl (err-Untouched local e)

update_to-Updated :
    (entry : Entry) (download : Download) (installs : Bool) (local : Binary) (o : Option String)
    → valid_sha entry.sha256 ≡ o
    → Updated download entry local (update_to entry download installs local o)
update_to-Updated entry download installs local none e = inl (ok-Untouched local)
update_to-Updated entry download installs local (some sha) e =
    elim (Bool-cases (not (valid_url entry.url) || same_digest local sha)) [
      | inl stop ↦ rw stop (inl (ok-Untouched local))
      | inr go ↦
          rw go (elim (verified-Replaced entry.min_required_sha256 installs sha local download) [
            | inl u ↦ inl u
            | inr r ↦ inr (sha, e, r)
          ])
    ]

-- The binary is only ever replaced by a download whose digest is the one that the fetched manifest gives
-- for this host; otherwise it stays, and no update is reported.
pub maybe_update_solver-Permitted :
    (env : Assoc String) (host : Host) (fetch : Fetch) (download : Download) (installs : Bool)
    (local : Binary)
    → Permitted
        (detect_platform_key env host)
        fetch
        download
        local
        (maybe_update_solver env host fetch download installs local)
unfolding maybe_update_solver update_entry
maybe_update_solver-Permitted env host fetch download installs local =
    elim (Bool-cases (opted_out env)) [
      | inl out ↦ rw out (inl (ok-Untouched local))
      | inr on ↦ rw on (by_fetch fetch)
    ]
  where
    by_entry :
        (v : Value) (r : Result (Option Entry))
        → resolve_manifest_entry (detect_platform_key env host) v ≡ r
        → Permitted
            (detect_platform_key env host)
            (fetched v)
            download
            local
            (with_entry download installs local r)
    by_entry v (err e) h = inl (err-Untouched local e)
    by_entry v (ok none) h = inl (ok-Untouched local)
    by_entry v (ok (some entry)) h =
        elim (update_to-Updated entry download installs local (valid_sha entry.sha256) refl) [
          | inl u ↦ inl u
          | inr (sha, e, r) ↦ inr (v, entry, sha, refl, h, e, r)
        ]

    by_fetch :
        (f : Fetch)
        → Permitted
            (detect_platform_key env host)
            f
            download
            local
            (with_manifest (detect_platform_key env host) f download installs local)
    by_fetch unreachable = inl (ok-Untouched local)
    by_fetch malformed = inl (ok-Untouched local)
    by_fetch (fetched null) = inl (ok-Untouched local)
    by_fetch (fetched v) = by_entry v (resolve_manifest_entry (detect_platform_key env host) v) refl

-- Under a hard floor that the binary does not meet, with an entry that can be followed and another
-- digest than the binary's: a download that fails or has another digest is refused, one that is
-- installed is reported, and one that cannot be installed only counts as no update.
pub update_entry-floor :
    (entry : Entry) (sha required s : String) (installs : Bool) (local : Binary)
    → valid_sha entry.sha256 ≡ some sha
    → valid_url entry.url ≡ true
    → same_digest local sha ≡ false
    → entry.min_required_sha256 ≡ str required
    → same_digest local required ≡ false
    → (update_entry entry failed installs local ≡ (err update_required, local))
      × (update_entry entry (got s) installs local ≡ (
          if str_eq s sha
          then (if installs then (ok true, some sha) else (ok false, local))
          else (err update_required, local)))
unfolding update_entry download_and_verify
update_entry-floor entry sha required s true local hs hu hl hr hf = (ground arith, ground arith)
update_entry-floor entry sha required s false local hs hu hl hr hf = (ground arith, ground arith)
