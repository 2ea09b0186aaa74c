-- ===== src/ProcessBypass/Profile.antt =====
-- process_profile.rs: the programs of an application family, by their names and their directories.
use tun2proxy.ProcessBypass.{Name, normalize_process_name, contains}
use tun2proxy.Prelude.{
  false, none, some, [], ◌∷◌, ◌||◌, Bool, List, Option, eqb, if◌then◌else◌, bytes_eq, codes,
  eq_ignore_ascii_case, split,
}

pub data ProcessProfile : Type 0 where
  we_game : ProcessProfile

unfoldable pub rule : ProcessProfile → Name
rule we_game = codes "@group:wegame"

abbrev pub known_names : List Name
known_names =
    codes "wegame"
    ∷ codes "wegame_env"
    ∷ codes "wegame_launcher"
    ∷ codes "wegamelauncher"
    ∷ codes "tgp"
    ∷ codes "tcls_core"
    ∷ codes "leagueclient"
    ∷ codes "leagueclientux"
    ∷ codes "leagueclientuxrender"
    ∷ codes "league of legends"
    ∷ codes "riotclientservices"
    ∷ codes "sguard"
    ∷ codes "sguard64"
    ∷ codes "sguardsvc"
    ∷ codes "sguardsvc64"
    ∷ codes "ace-service"
    ∷ codes "ace-service64"
    ∷ []

unfoldable pub matches_names : ProcessProfile → List Name → Bool
matches_names we_game [] = false
matches_names we_game (name ∷ names) =
    contains (normalize_process_name name) known_names || matches_names we_game names

-- `replace('/', "\\")`
abbrev pub backslashes : Name → Name
backslashes [] = []
backslashes (c ∷ cs) = (if eqb c 47 then 92 else c) ∷ backslashes cs

-- The part before the last backslash.
abbrev pub before_last : Name → Option Name
before_last [] = none
before_last (c ∷ cs) = elim (before_last cs) [
  | some front ↦ some (c ∷ front)
  | none ↦ if eqb c 92 then some [] else none
]

abbrev pub is_known_directory : Name → Bool
is_known_directory part =
    eq_ignore_ascii_case part (codes "wegame")
    || (eq_ignore_ascii_case part (codes "wegameapps")
        || eq_ignore_ascii_case part (codes "anticheatexpert"))

abbrev pub any_known : List Name → Bool
any_known [] = false
any_known (part ∷ parts) = is_known_directory part || any_known parts

unfoldable pub matches_path : ProcessProfile → Name → Bool
matches_path we_game path = elim (before_last (backslashes path)) [
  | none ↦ false
  | some directories ↦ any_known (split 92 directories)
]
