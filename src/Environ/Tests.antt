-- ===== src/Environ/Tests.antt =====
-- Reading a small environment.
use ctfuzz.Base.{◌≡◌, refl, true, false, none, some, List, [], ◌∷◌}
use ctfuzz.Base.Int.{pos}
use ctfuzz.Base.Text.{codes}
use ctfuzz.State.{Text, ok}
use ctfuzz.Environ.{Settings, afl_no_ui, apply, flag}
use ctfuzz.Environ.Read.{
  Outside, read_entry, read_entries, read_afl_environment, read_afl, find_name, is_named,
  strncmp_eq,
}
use ctfuzz.Environ.Laws.{assigned, read_entry-rule}
use ctfuzz.Environ.Warnings.{read_afl_environment-issue, any_suspicious}

abbrev outside : Outside
outside = record {
  variables = codes "AFL_DEBUG" ∷ codes "AFL_NO_UI" ∷ [];
  deprecated = codes "AFL_DEFER_FORKSRV" ∷ [];
  get_afl_env = λ name. some (codes "1");
  atoi = λ value. pos 1;
}

abbrev settings : Settings
settings = record {
  flags = λ f. 0;
  pointers = λ p. none;
  cycle_schedules = 0;
  expand_havoc = 0;
  min_length = 1;
  max_length = 1048576;
  sync_time = 1800000;
  pizza_is_served = false;
  issue_detected = false;
  sync_warnings = [];
}

read_entry-rule_example :
    read_entry outside (assigned (codes "AFL_NO_UI") (codes "1")) settings
    ≡ apply outside.atoi (flag afl_no_ui) (some (codes "1")) settings
read_entry-rule_example =
    read_entry-rule outside 14 1 (codes "AFL_NO_UI", flag afl_no_ui) (codes "1") settings refl refl
      (refl, (refl, tt))

abbrev variables : List Text
variables = codes "PATH=/bin" ∷ codes "AFL_NOUI=1" ∷ []

abbrev warned : Settings
warned = record settings { issue_detected = true }

variables_are_read : read_afl_environment outside variables settings ≡ ok warned
unfolding read_afl_environment read_entries read_entry read_afl find_name is_named strncmp_eq
variables_are_read = refl

read_afl_environment-issue_example : warned.issue_detected ≡ any_suspicious outside variables
read_afl_environment-issue_example =
    read_afl_environment-issue outside variables settings warned variables_are_read
