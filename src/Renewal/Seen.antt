-- ===== src/Renewal/Seen.antt =====
-- What the worker knows of an instance from its acts: the latest reading of its sidecar, the
-- certificate that was last issued to it and the serial that was last reported.
use greffer.Renewal.{
  Answered, http, lost, probed, mint_sent, installed, reloaded, restarted, report_sent, Past,
}
use greffer.Renewal.Serial.{same_serial}
use greffer.Prelude.{
  String, ◌≡◌, true, false, Option, none, some, [], ◌∷◌, if◌then◌else◌, ◌==◌, nat_eq, string_eq,
}

-- The latest reading of the sidecar since the instance's certificate or its sidecar was touched.
unfoldable pub last_reading : String → Past → Option (Option String)
last_reading id [] = none
last_reading id (probed j serial ∷ past) = if j == id then some serial else last_reading id past
last_reading id (installed j ∷ past) = if j == id then none else last_reading id past
last_reading id (reloaded j ∷ past) = if j == id then none else last_reading id past
last_reading id (restarted j ∷ past) = if j == id then none else last_reading id past
last_reading id (_ ∷ past) = last_reading id past

-- The `serial_number` that an answer to a mint brings.
unfoldable pub issued_serial : Answered → Option (Option String)
issued_serial lost = none
issued_serial (http res) = if res.status == 200 then res.json else none

-- What the latest answer to a mint brought.
unfoldable pub last_issued : String → Past → Option (Option String)
unfolding issued_serial
last_issued id [] = none
last_issued id (mint_sent j answer ∷ past) =
    if j == id then issued_serial answer else last_issued id past
last_issued id (_ ∷ past) = last_issued id past

unfoldable pub last_report : String → Past → Option (Option String)
last_report id [] = none
last_report id (report_sent j serial answer ∷ past) =
    if j == id then some serial else last_report id past
last_report id (_ ∷ past) = last_report id past

-- The sidecar was read, and serves another certificate than the one that was last issued.
pub record IsMismatch (id : String) (past : Past) : Type 0 where
  pub serial : String
  pub wanted : Option String
  pub read : last_reading id past ≡ some (some serial)
  pub issued : last_issued id past ≡ some wanted
  pub differs : same_serial (some serial) wanted ≡ false

-- The certificate that was last issued is served, and it is what the report that was sent last said.
pub record IsServed (id : String) (serial : Option String) (past : Past) : Type 0 where
  pub wanted : Option String
  pub read : last_reading id past ≡ some serial
  pub issued : last_issued id past ≡ some wanted
  pub sent : last_report id past ≡ some serial
  pub same : same_serial serial wanted ≡ true
