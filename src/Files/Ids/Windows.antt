-- ===== src/Files/Ids/Windows.antt =====
-- file_windows.go: `GetFileOsUniqueKey`.
use dhound_agent.Base.{ℕ, ◌++◌, [], Bytes, codes, format_decimal}
use dhound_agent.Files.Ids.{StatResult, found, not_exist, failed, KeyResult, key, panic}

pub record WindowsStat : Type 0 where
  pub idxhi : ℕ
  pub idxlo : ℕ
  pub vol : ℕ

unfoldable pub windows_key : WindowsStat → Bytes
windows_key stat =
    format_decimal stat.idxhi
    ++ (codes "_" ++ (format_decimal stat.idxlo ++ (codes "_" ++ format_decimal stat.vol)))

unfoldable pub get_file_os_unique_key : StatResult WindowsStat → KeyResult
unfolding windows_key
get_file_os_unique_key (found stat) = key (windows_key stat)
get_file_os_unique_key not_exist = key []
get_file_os_unique_key failed = panic
