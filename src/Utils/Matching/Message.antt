-- ===== src/Utils/Matching/Message.antt =====
-- `ApplyFilterToSecurityMessage` of utils.go: what the placeholders become.
use dhound_agent.Base.{
  [], ◌∷◌, ◌++◌, ◌≡◌, refl, ◌≢◌, ◌∙◌, ap, Bytes, codes, Dict, All, length, arith, ltb,
  if◌then◌else◌, append-nil, subst, lt→ltb, suc, All-append,
}
use dhound_agent.Strings.{replace_all}
use dhound_agent.Strings.Replace.{replace-eq-replace_all, replace_all-front, replace_all-Lacks}
use dhound_agent.Utils.Matching.{message_loop, apply_filter_to_security_message}

-- Replace every occurrence of each placeholder, in the order of the map.
abbrev pub substitute : Dict Bytes → Bytes → Bytes
substitute [] message = message
substitute ((key, value) ∷ rest) message =
    substitute rest (replace_all (codes "#" ++ key) value message)

message_loop-substitute :
    (m : Dict Bytes) (message : Bytes) → message_loop m message ≡ substitute m message
unfolding message_loop
message_loop-substitute [] message = refl
message_loop-substitute ((key, value) ∷ rest) message =
    rw (replace-eq-replace_all (codes "#" ++ key) value (length message) message (omega arith))
      (message_loop-substitute rest (replace_all (codes "#" ++ key) value message))

-- For every message and every order of the map, the count given to `strings.Replace` is large enough:
-- the result is the message with every occurrence of each placeholder replaced, one key after the other.
pub apply_filter-eq-substitute :
    (message : Bytes) (m : Dict Bytes)
    → apply_filter_to_security_message message m
      ≡ (if ltb 0 (length message) then substitute m message else [])
unfolding apply_filter_to_security_message
apply_filter-eq-substitute [] m = refl
apply_filter-eq-substitute (c ∷ message) m = ground (arith, message_loop-substitute m (c ∷ message))

abbrev pub LacksHash : Bytes → Type 0
LacksHash = All (λ c. c ≢ b'#')

pub substitute-LacksHash :
    (m : Dict Bytes) (message : Bytes) → LacksHash message → substitute m message ≡ message
substitute-LacksHash [] message h = refl
substitute-LacksHash ((key, value) ∷ rest) message h =
    rw (replace_all-Lacks b'#' key value message h) (substitute-LacksHash rest message h)

placeholder_front :
    (key value rest : Bytes)
    → LacksHash rest
    → replace_all (codes "#" ++ key) value (codes "#" ++ (key ++ rest)) ≡ value ++ rest
placeholder_front key value rest h =
    replace_all-front b'#' key value rest
    ∙ ap (◌++◌ value) (replace_all-Lacks b'#' key value rest h)

apply_filter_hash :
    (rest : Bytes) (m : Dict Bytes)
    → apply_filter_to_security_message (codes "#" ++ rest) m ≡ substitute m (codes "#" ++ rest)
apply_filter_hash rest m =
    apply_filter-eq-substitute (codes "#" ++ rest) m
    ∙ rw (lt→ltb 0 (suc (length rest)) (omega arith))

placeholder_whole :
    (key value : Bytes) → replace_all (codes "#" ++ key) value (codes "#" ++ key) ≡ value
placeholder_whole key value =
    subst (λ k. replace_all (codes "#" ++ key) value (codes "#" ++ k) ≡ value ++ [])
      (append-nil key) (placeholder_front key value [] tt)
    ∙ append-nil value

-- Two fields, where the name of one begins with the name of the other, and neither value nor the
-- end of the longer name has a `#`. A message that is the placeholder of the longer name becomes
-- the value of the longer one if its entry is visited first, and the value of the shorter one with
-- the end of the longer name behind it if that one is.
pub message_order :
    (key tail short long : Bytes)
    → LacksHash tail
    → LacksHash short
    → LacksHash long
    → let message = codes "#" ++ (key ++ tail) in
      (apply_filter_to_security_message message ((key, short) ∷ (key ++ tail, long) ∷ [])
        ≡ short ++ tail)
      × (apply_filter_to_security_message message ((key ++ tail, long) ∷ (key, short) ∷ []) ≡ long)
message_order key tail short long t s l = (
  apply_filter_hash (key ++ tail) ((key, short) ∷ (key ++ tail, long) ∷ [])
      ∙ ap (substitute ((key ++ tail, long) ∷ [])) (placeholder_front key short tail t)
      ∙ substitute-LacksHash ((key ++ tail, long) ∷ []) (short ++ tail)
          (All-append _ short tail s t),
  apply_filter_hash (key ++ tail) ((key ++ tail, long) ∷ (key, short) ∷ [])
      ∙ ap (substitute ((key, short) ∷ [])) (placeholder_whole (key ++ tail) long)
      ∙ substitute-LacksHash ((key, short) ∷ []) long l,
)
