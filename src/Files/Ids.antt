-- ===== src/Files/Ids.antt =====
-- file_other.go: `GetFileOsUniqueKey`, and file.go: `IsFileExists` and
-- `CreateDirIfNotExist`, by what `os.Stat` says of a path.
pub mod Windows
pub mod Distinct
mod Examples
use dhound_agent.Base.{ℕ, ◌++◌, [], Bool, true, false, Bytes, codes, format_decimal}

-- The file is there with its `Sys()`, it is not there, or the call fails for another reason, such as
-- a directory that may not be searched.
pub data StatResult (S : Type 0) : Type 0 where
  found : S → StatResult S
  not_exist : StatResult S
  failed : StatResult S

pub record UnixStat : Type 0 where
  pub ino : ℕ
  pub dev : ℕ

-- A key, or a panic at the nil `FileInfo`.
pub data KeyResult : Type 0 where
  key : Bytes → KeyResult
  panic : KeyResult

pub unix_key : UnixStat → Bytes
unfolding format_decimal
unix_key stat = format_decimal stat.ino ++ (codes "_" ++ format_decimal stat.dev)

unfoldable pub get_file_os_unique_key : StatResult UnixStat → KeyResult
unfolding unix_key
get_file_os_unique_key (found stat) = key (unix_key stat)
get_file_os_unique_key not_exist = key []
get_file_os_unique_key failed = panic

-- A failure for another reason counts as there.
unfoldable pub is_file_exists : {S : Type 0} → StatResult S → Bool
is_file_exists not_exist = false
is_file_exists _ = true

-- Whether `MkdirAll` is called.
unfoldable pub creates_dir : {S : Type 0} → StatResult S → Bool
creates_dir not_exist = true
creates_dir _ = false
