-- ===== src/Backup/Boot/Twice.antt =====
-- A second boot posts what the first could not deliver, and nothing else.
use greffer.Backup.Boot.{StateFile, BootSite}
use greffer.Prelude.{String, Bool, true, not, ◌&&◌, none, some, nat_eq, string_eq}

-- A callback that the manager has not acknowledged, or whose state file could not be removed.
abbrev pub is_owed : BootSite → String × StateFile → Bool
is_owed site (id, (name, none)) = true
is_owed site (id, (name, some payload)) = not (site.acknowledges id payload && site.removes id name)
