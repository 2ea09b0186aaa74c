-- ===== src/Tests/Names.antt =====
-- Inputs for the theorems about process_bypass.rs.
use tun2proxy.ProcessBypass.Sets.{set_names-set, asks_for, IsSorted}
use tun2proxy.ProcessBypass.{
  Name, set_names, collect, normalize_process_name, contains, default, is_blank,
}
use tun2proxy.ProcessBypass.Profile.{we_game, matches_path, matches_names}
use tun2proxy.Prelude.{
  refl, [], ◌∷◌, ◌≡◌, List, codes, ◌==◌, Bool, ◌&&◌, not, ◌||◌, false, bytes_eq, arith, true,
}

abbrev names_program : Unit {0}
unfolding set_names collect normalize_process_name
names_program = tt

abbrev given : List Name
given = codes " Curl.EXE " ∷ codes "curl" ∷ codes "proxy-ui.exe" ∷ []

abbrev again : List Name
again = codes "PROXY-UI" ∷ codes "curl.exe" ∷ []

normalized : (set_names given default).names ≡ codes "curl" ∷ codes "proxy-ui" ∷ []
unfolding names_program
normalized = refl

normal_given : collect given ≡ codes "curl" ∷ codes "proxy-ui" ∷ []
unfolding names_program
normal_given = refl

either_order :
    (x y b : Bool)
    → ((x && b) || ((x && b) || ((y && b) || false))) ≡ ((y && b) || ((x && b) || false))
either_order x y b = ground arith

-- Other spellings of the same two names.
same_names : (j : Name) → asks_for j given ≡ asks_for j again
unfolding names_program
same_names j = either_order (codes "curl" == j) (codes "proxy-ui" == j) (not (is_blank j))

set_names-set_example :
    ((j : Name) → contains j (set_names given default).names ≡ asks_for j given)
    × IsSorted (set_names given default).names
    × (set_names again (set_names given default) ≡ set_names given default)
set_names-set_example = set_names-set given again default same_names

in_known_directory : matches_path we_game (codes "E:/WeGameApps/NewGame/Bin/game.exe") ≡ true
unfolding matches_path
in_known_directory = refl

in_other_directory : matches_path we_game (codes "C:/Tools/NotWeGame/helper.exe") ≡ false
unfolding matches_path
in_other_directory = refl

known_launcher : matches_names we_game (codes "UnknownNewGame.exe" ∷ codes "WeGame.exe" ∷ []) ≡ true
unfolding matches_names names_program
known_launcher = refl
