-- ===== src/Files/Examples.antt =====
-- Names of files in normal form.
use dhound_agent.Base.{◌≡◌, refl, codes}
use dhound_agent.Files.{normalize_file_name}

mixed_slashes : normalize_file_name b'/' (codes " /var\\log/auth.log\n") ≡ codes "/var/log/auth.log"
unfolding normalize_file_name
mixed_slashes = refl
