-- ===== src/Config/Yaml/Examples.antt =====
-- A main file of one byte.
use dhound_agent.Base.{[], ◌∷◌, ◌≡◌, refl, none, some, true, Bytes}
use dhound_agent.Config.Yaml.{Yaml, opened, load_yaml_file, parse_buffer, fill_buffer, main_file_of}

-- The parser copies the text.
abbrev copying : Yaml Bytes
copying = record {
  open_file = λ path. opened (some 2) (λ size. 7 ∷ []);
  expand_env = λ s. s;
  unmarshal = λ text out. (text, none);
}

padded : main_file_of [] (load_yaml_file copying [] []) ≡ (7 ∷ 0 ∷ [], true)
unfolding main_file_of load_yaml_file parse_buffer fill_buffer
padded = refl
