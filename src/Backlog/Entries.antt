-- ===== src/Backlog/Entries.antt =====
-- pilot_v1/backlog.py: the dict of findings.
-- `d.get(key)`
use aws_secops.Backlog.Types.{Entries, Key, Tracked, same_key}
use aws_secops.Prelude.{Bool, List, Option, [], false, if◌then◌else◌, none, some, ◌||◌, ◌∷◌}

abbrev pub lookup : Key → Entries → Option Tracked
lookup k [] = none
lookup k ((j, t) ∷ d) = if same_key j k then some t else lookup k d

-- `d[key] = value`
abbrev pub insert : Key → Tracked → Entries → Entries
insert k v [] = (k, v) ∷ []
insert k v ((j, t) ∷ d) = if same_key j k then (j, v) ∷ d else (j, t) ∷ insert k v d

-- `key in keys`
abbrev pub has_key : Key → List Key → Bool
has_key k [] = false
has_key k (j ∷ ks) = same_key j k || has_key k ks
