-- ===== src/Identity/Tests.antt =====
-- crates/ai-daemon/src/identity.rs: units of concrete processes.
use ai_daemon.Prelude.{ℕ, ◌+◌, ◌≡◌, refl, ap, ◌≢◌, true, none, some, [], ◌∷◌, ◌++◌, arith, length}
use ai_daemon.Identity.{
  Text, dash, cut_prefix, cut_suffix, split, join, is_launch_token, drop_token, drop_launcher,
  strip_launch_uuid, app_id, airun, scope_unit, normalise_unit, first_unit, after_last,
  unit_of_line, unit_from_lines, unit_from_cgroup,
}
use ai_daemon.Identity.Key.{
  native, shim, Caller, key, key_as, unnamed_key, trust_of_key, trust_of_key-key,
}
use ai_daemon.Identity.Launches.{
  app_scope, airun_name, normalise_unit-is_launch_token, normalise_unit-airun,
}

-- "gnome-org.gnome.TextEditor"
abbrev editor : Text
editor =
    103 ∷ 110 ∷ 111 ∷ 109 ∷ 101 ∷ 45 ∷ 111 ∷ 114 ∷ 103 ∷ 46 ∷ 103 ∷ 110 ∷ 111 ∷ 109 ∷ 101 ∷ 46 ∷ 84
    ∷ 101 ∷ 120 ∷ 116 ∷ 69 ∷ 100 ∷ 105 ∷ 116 ∷ 111 ∷ 114 ∷ []

-- "4242" and "deadbeef"
abbrev first_launch : Text
first_launch = 52 ∷ 50 ∷ 52 ∷ 50 ∷ []

abbrev second_launch : Text
second_launch = 100 ∷ 101 ∷ 97 ∷ 100 ∷ 98 ∷ 101 ∷ 101 ∷ 102 ∷ []

editor_unit :
    normalise_unit (app_scope (editor ++ dash ∷ first_launch))
    ≡ some (
        111 ∷ 114 ∷ 103 ∷ 46 ∷ 103 ∷ 110 ∷ 111 ∷ 109 ∷ 101 ∷ 46 ∷ 84 ∷ 101 ∷ 120 ∷ 116 ∷ 69 ∷ 100
        ∷ 105 ∷ 116 ∷ 111 ∷ 114 ∷ [])
unfolding normalise_unit cut_suffix cut_prefix scope_unit app_id split drop_token is_launch_token
    drop_launcher join
editor_unit = refl

-- "0::/user.slice/user@7.service/vte-spawn-1.scope" has no unit of an application.
terminal :
    unit_from_cgroup (
      48 ∷ 58 ∷ 58 ∷ 47 ∷ 117 ∷ 115 ∷ 101 ∷ 114 ∷ 46 ∷ 115 ∷ 108 ∷ 105 ∷ 99 ∷ 101 ∷ 47 ∷ 117 ∷ 115
      ∷ 101 ∷ 114 ∷ 64 ∷ 55 ∷ 46 ∷ 115 ∷ 101 ∷ 114 ∷ 118 ∷ 105 ∷ 99 ∷ 101 ∷ 47 ∷ 118 ∷ 116 ∷ 101
      ∷ 45 ∷ 115 ∷ 112 ∷ 97 ∷ 119 ∷ 110 ∷ 45 ∷ 49 ∷ 46 ∷ 115 ∷ 99 ∷ 111 ∷ 112 ∷ 101 ∷ 10 ∷ [])
    ≡ none
unfolding unit_from_cgroup unit_from_lines unit_of_line first_unit after_last normalise_unit
    cut_suffix cut_prefix scope_unit split
terminal = refl

-- "0::/system.slice/a.service"
service :
    unit_from_cgroup (
      48 ∷ 58 ∷ 58 ∷ 47 ∷ 115 ∷ 121 ∷ 115 ∷ 116 ∷ 101 ∷ 109 ∷ 46 ∷ 115 ∷ 108 ∷ 105 ∷ 99 ∷ 101 ∷ 47
      ∷ 97 ∷ 46 ∷ 115 ∷ 101 ∷ 114 ∷ 118 ∷ 105 ∷ 99 ∷ 101 ∷ 10 ∷ [])
    ≡ some (97 ∷ 46 ∷ 115 ∷ 101 ∷ 114 ∷ 118 ∷ 105 ∷ 99 ∷ 101 ∷ [])
unfolding unit_from_cgroup unit_from_lines unit_of_line first_unit after_last normalise_unit
    cut_suffix cut_prefix scope_unit split
service = refl

-- A snap's uuid is taken off.
snap_unit :
    normalise_unit (
      115 ∷ 110 ∷ 97 ∷ 112 ∷ 46 ∷ 97 ∷ 46 ∷ 98 ∷ 45 ∷ 48 ∷ 49 ∷ 50 ∷ 51 ∷ 52 ∷ 53 ∷ 54 ∷ 55 ∷ 45
      ∷ 56 ∷ 57 ∷ 97 ∷ 98 ∷ 45 ∷ 99 ∷ 100 ∷ 101 ∷ 102 ∷ 45 ∷ 48 ∷ 49 ∷ 50 ∷ 51 ∷ 45 ∷ 52 ∷ 53 ∷ 54
      ∷ 55 ∷ 56 ∷ 57 ∷ 97 ∷ 98 ∷ 99 ∷ 100 ∷ 101 ∷ 102 ∷ 46 ∷ 115 ∷ 99 ∷ 111 ∷ 112 ∷ 101 ∷ [])
    ≡ some (115 ∷ 110 ∷ 97 ∷ 112 ∷ 46 ∷ 97 ∷ 46 ∷ 98 ∷ [])
unfolding normalise_unit cut_suffix cut_prefix scope_unit strip_launch_uuid split
snap_unit = refl

first_token : is_launch_token first_launch ≡ true
unfolding is_launch_token
first_token = refl

second_token : is_launch_token second_launch ≡ true
unfolding is_launch_token
second_token = refl

editor_apart : editor ≢ airun_name
editor_apart e = let size : ◌≡◌ {A = ℕ} 26 5 = ap length e in omega (arith, size)

normalise_unit-is_launch_token_example :
    normalise_unit (app_scope (editor ++ dash ∷ first_launch))
    ≡ normalise_unit (app_scope (editor ++ dash ∷ second_launch))
normalise_unit-is_launch_token_example =
    normalise_unit-is_launch_token editor first_launch second_launch editor_apart first_token
      second_token

-- `ai-run --as a-b`.
normalise_unit-airun_example :
    normalise_unit (app_scope ((airun ++ 97 ∷ 45 ∷ 98 ∷ []) ++ dash ∷ first_launch))
    ≡ some (97 ∷ 45 ∷ 98 ∷ [])
normalise_unit-airun_example = normalise_unit-airun (97 ∷ 45 ∷ 98 ∷ []) first_launch first_token

abbrev some_editor : Caller
some_editor = record {
  trust = native;
  uid = 7;
  pid = 40;
  unit = some editor;
  app_id = none;
  exe = none;
  client = none;
  attested = true;
}

-- A number below ten, as a digit.
abbrev digit : ℕ → Text
digit n = (48 + n) ∷ []

trust_of_key-key_example :
    (trust_of_key (key digit some_editor) ≡ native)
    × (key digit some_editor ≡ key digit (record some_editor { trust = shim }) → native ≡ shim)
trust_of_key-key_example = trust_of_key-key digit some_editor (record some_editor { trust = shim })

-- A client of the shim whose token is named like a unit has the key of that unit's process.
shim_names_collide :
    key digit (record some_editor { trust = shim })
    ≡ key digit (record some_editor {
      trust = shim;
      client = some ((117 ∷ 110 ∷ 105 ∷ 116 ∷ 58 ∷ []) ++ (editor ++ (64 ∷ 55 ∷ [])));
    })
unfolding key key_as unnamed_key
shim_names_collide = refl
