-- ===== src/Tests/Configs.antt =====
-- Examples for the configuration.
use vibefeld.Prelude.{◌≡◌, refl, ◌↔◌, false, none, some, codes, ok, err}
use vibefeld.Text.{pos, negsuc}
use vibefeld.Config.{
  Config, default_config, fill_missing, validate, finite, load, empty_title, bad_max_children,
  read_failed, invalid_json,
}
use vibefeld.Config.Bounds.{IsLoadable, validate-fill_missing_iff}

-- A file with a title, a conjecture, the version and a depth.
abbrev small_file : Config
small_file = record (default_config 7) {
  title = codes "T";
  conjecture = codes "P";
  lock_timeout = pos 0;
  max_depth = pos 40;
  max_children = pos 0;
  auto_correct_threshold = finite false 0;
}

validate-fill_missing_iff_example :
    (validate (some (fill_missing small_file)) ≡ ok tt) ↔ IsLoadable small_file
validate-fill_missing_iff_example = validate-fill_missing_iff small_file

small_file_passes : validate (some (fill_missing small_file)) ≡ ok tt
unfolding validate fill_missing
small_file_passes = refl

title_missing : validate (some (default_config 0)) ≡ err empty_title
unfolding validate
title_missing = refl

fewer_than_no_children :
    validate (some (fill_missing (record small_file { max_children = negsuc 0 })))
    ≡ err bad_max_children
unfolding validate fill_missing
fewer_than_no_children = refl

not_there : load (λ _. none) (λ (c : Config). some c) (codes "meta.json") ≡ err read_failed
unfolding load
not_there = refl

not_parsed : load (λ _. some small_file) (λ _. none) (codes "meta.json") ≡ err invalid_json
unfolding load
not_parsed = refl
