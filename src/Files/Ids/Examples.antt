-- ===== src/Files/Ids/Examples.antt =====
-- Keys of files with small numbers.
use dhound_agent.Base.{◌≡◌, refl, true, codes}
use dhound_agent.Files.Ids.{
  found, failed, UnixStat, key, panic, get_file_os_unique_key, is_file_exists,
}

abbrev log_file : UnixStat
log_file = record { ino = 131; dev = 7 }

its_key : get_file_os_unique_key (found log_file) ≡ key (codes "131_7")
unfolding get_file_os_unique_key
its_key = refl

-- A path that may not be looked at counts as there, but has no key.
no_access : (is_file_exists {S = UnixStat} failed ≡ true) × (get_file_os_unique_key failed ≡ panic)
unfolding is_file_exists get_file_os_unique_key
no_access = (refl, refl)
