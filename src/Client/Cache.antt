-- ===== src/Client/Cache.antt =====
-- internal/client/collector/cache.go and report.go: a report is sent when its hash differs from the
-- last one that was sent. `proto.Marshal` and SHA-256 are not part of the repository.
use team_x.Base.{
  ◌≡◌, refl, Bool, true, false, not, Option, none, some, [], ◌∷◌, ◌++◌, arith, Text, codes, text_eq,
  text_eq_refl, Option-cases, inl, inr, if◌then◌else◌, length,
}
use team_x.Proto.Messages.{HardwareInfo, ReportRequest, hardware, report_request}
use team_x.Client.Agent.{Agent, first_fault, send}

-- `proto.Marshal`, which may fail, and the hexadecimal digits of a SHA-256 digest.
pub record Hashing : Type 0 where
  pub marshal : HardwareInfo → Option Text
  pub digest : Text → Text
  pub length-digest : (s : Text) → length (digest s) ≡ 64

-- `hex.EncodeToString(make([]byte, 32))`
abbrev pub zeros : Text
zeros = codes "0000000000000000000000000000000000000000000000000000000000000000"

abbrev pub as_report : Text → HardwareInfo → ReportRequest
as_report id info = record { report_id = id; type = hardware (some info) }

module _ (h : Hashing) where
  unfoldable pub hash_hardware : HardwareInfo → Text
  hash_hardware info = elim (h.marshal info) [
    | none ↦ codes "error-" ++ zeros
    | some bytes ↦ h.digest bytes
  ]

  unfoldable pub is_changed : HardwareInfo → Agent → Bool
  is_changed info a =
      if text_eq a.last_hash [] then true else not (text_eq (hash_hardware info) a.last_hash)

  unfoldable pub mark_sent : HardwareInfo → Agent → Agent
  mark_sent info a = record a { last_hash = hash_hardware info }

  -- One tick of `reportLoop`; after a failed send the loop ends.
  unfoldable pub report_tick : Text → HardwareInfo → Agent → Bool × Agent
  report_tick id info a =
      if not (is_changed info a)
      then (true, a)
      else if first_fault a.send_faults
      then (false, send (report_request (as_report id info)) a)
      else (true, mark_sent info (send (report_request (as_report id info)) a))

  hash_hardware-nonempty : (info : HardwareInfo) → text_eq (hash_hardware info) [] ≡ false
  unfolding hash_hardware
  hash_hardware-nonempty info = elim (Option-cases (h.marshal info)) [
    | inl e ↦ rw (e, hash_hardware) (unfold text_eq in refl)
    | inr (bytes, e) ↦ rw (e, hash_hardware) (nonempty (h.digest bytes) (h.length-digest bytes))
  ]
    where
      nonempty : (s : Text) → length s ≡ 64 → text_eq s [] ≡ false
      nonempty [] e = absurd (omega (arith, e))
      nonempty (c ∷ s) e = unfold text_eq in refl

  -- Right after a report was sent, the same hardware is not sent again, and other hardware exactly if
  -- its hash is another one; a tick whose send fails leaves the cache, so that the report is due again.
  pub report_tick_lem :
      (id : Text) (info next : HardwareInfo) (a : Agent)
      → is_changed info a ≡ true
      → (is_changed next (report_tick id info a).1 ≡ (
          if first_fault a.send_faults
          then is_changed next a
          else not (text_eq (hash_hardware next) (hash_hardware info))))
        × (first_fault a.send_faults ≡ false → is_changed info (report_tick id info a).1 ≡ false)
  unfolding report_tick is_changed mark_sent send
  report_tick_lem id info next a due =
      ground (arith, hash_hardware-nonempty info, text_eq_refl (hash_hardware info))
