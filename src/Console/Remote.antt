-- ===== src/Console/Remote.antt =====
-- The remote commands of the console.
use zmf.Prelude.{
  ℕ, ◌^◌, ◌<◌, ◌==◌, ◌≡◌, ◌≢◌, refl, sym, ◌∙◌, ap, true, false, Bytes, codes, bytes_eq, none, some,
  [], ◌∷◌, ◌++◌, All, arith,
}
use zmf.Prelude.Decimal.{to_string}
use zmf.Prelude.Decimal.Parse.{is_digit, stoi, stoi_of_to_string, to_string-digits}
use zmf.Data.UniqueId.{ModuleUniqueId, get_string}
use zmf.Dispatcher.Incoming.{ControlRequest, request_enable, request_disable, request_stop}
use zmf.Console.{
  Tokenizer, ask_remote, id_of_tokens, try_string_to_module_id, remote_command, by_first_token,
  command_of, read_line, InstanceController, obey_command, console_turn,
}

abbrev pub IsWithout : ℕ → Bytes → Type 0
IsWithout c s = All (λ x. (x == c) ≡ false) s

-- One separator between two parts gives the two parts.
abbrev pub IsTokenizer : Tokenizer → Type 0
IsTokenizer tokens =
    (c : ℕ) (a b : Bytes)
    → a ≢ []
    → b ≢ []
    → IsWithout c a
    → IsWithout c b
    → tokens c (a ++ c ∷ b) ≡ a ∷ b ∷ []

-- The words of the three remote commands.
abbrev pub command_word : ControlRequest → Bytes
command_word request_enable = codes "ren"
command_word request_disable = codes "rdis"
command_word request_stop = codes "rstop"

digits-IsWithout :
    (c : ℕ) (s : Bytes) → is_digit c ≡ false → All (λ x. is_digit x ≡ true) s → IsWithout c s
digits-IsWithout c [] out a = tt
digits-IsWithout c (x ∷ s) out a = (ground (arith, a.0), digits-IsWithout c s out a.1)

append-IsWithout : (c : ℕ) (a b : Bytes) → IsWithout c a → IsWithout c b → IsWithout c (a ++ b)
append-IsWithout c [] b p q = q
append-IsWithout c (x ∷ a) b p q = (p.0, append-IsWithout c a b p.1 q)

nothing_to_read : stoi [] ≡ none
unfolding stoi
nothing_to_read = refl

to_string-some : (n : ℕ) → n < 2 ^ 31 → to_string n ≢ []
to_string-some n h e =
    absurd (ground (arith, sym (stoi_of_to_string n h) ∙ ap stoi e ∙ nothing_to_read))

word-IsWithout : (request : ControlRequest) → IsWithout b' ' (command_word request)
word-IsWithout request_enable = (refl, (refl, (refl, tt)))
word-IsWithout request_disable = (refl, (refl, (refl, (refl, tt))))
word-IsWithout request_stop = (refl, (refl, (refl, (refl, (refl, tt)))))

word-some : (request : ControlRequest) → command_word request ≢ []
word-some request_enable e = absurd (ground arith)
word-some request_disable e = absurd (ground arith)
word-some request_stop e = absurd (ground arith)

get_string-IsWithout : (id : ModuleUniqueId) → IsWithout b' ' (get_string id)
unfolding get_string
get_string-IsWithout id =
    append-IsWithout b' ' (to_string id.type_id) (b':' ∷ to_string id.instance_id)
      (digits-IsWithout b' ' (to_string id.type_id) refl (to_string-digits id.type_id))
      (
        refl,
        digits-IsWithout b' ' (to_string id.instance_id) refl (to_string-digits id.instance_id),
      )

get_string-some : (id : ModuleUniqueId) → id.type_id < 2 ^ 31 → get_string id ≢ []
unfolding get_string
get_string-some id small e = starts (to_string id.type_id) (to_string-some id.type_id small) e
  where
    starts : (s : Bytes) → s ≢ [] → s ++ (b':' ∷ to_string id.instance_id) ≢ []
    starts [] none_there q = absurd (none_there refl)
    starts (x ∷ s) some_there q = absurd (ground arith)

module _ (tokens : Tokenizer) (splits : IsTokenizer tokens) where
  try_string_to_module_id-get_string :
      (id : ModuleUniqueId)
      → id.type_id < 2 ^ 16
      → id.instance_id < 2 ^ 31
      → try_string_to_module_id tokens (get_string id) ≡ some id
  unfolding try_string_to_module_id id_of_tokens get_string
  try_string_to_module_id-get_string id small small' =
      let e =
        splits b':' (to_string id.type_id) (to_string id.instance_id)
          (to_string-some id.type_id (omega arith)) (to_string-some id.instance_id small')
          (digits-IsWithout b':' (to_string id.type_id) refl (to_string-digits id.type_id))
          (digits-IsWithout b':' (to_string id.instance_id) refl
            (to_string-digits id.instance_id)) in
      rw (e, stoi_of_to_string id.type_id (omega arith), stoi_of_to_string id.instance_id small')
        (ground arith)

  remote_tokens :
      (request : ControlRequest) (id : ModuleUniqueId)
      → id.type_id < 2 ^ 16
      → tokens b' ' (command_word request ++ b' ' ∷ get_string id)
        ≡ command_word request ∷ get_string id ∷ []
  remote_tokens request id small =
      splits b' ' (command_word request) (get_string id) (word-some request)
        (get_string-some id (omega arith)) (word-IsWithout request) (get_string-IsWithout id)

  remote_branch :
      (request : ControlRequest) (argument : Bytes) (id : ModuleUniqueId)
      → try_string_to_module_id tokens argument ≡ some id
      → command_of tokens
          (command_word request ++ b' ' ∷ argument)
          (command_word request ∷ argument ∷ [])
        ≡ some (ask_remote request id)
  unfolding command_of by_first_token remote_command bytes_eq
  remote_branch request_enable argument id e = ground (arith, e)
  remote_branch request_disable argument id e = ground (arith, e)
  remote_branch request_stop argument id e = ground (arith, e)

  read_line-remote :
      (request : ControlRequest) (id : ModuleUniqueId)
      → id.type_id < 2 ^ 16
      → id.instance_id < 2 ^ 31
      → read_line tokens (command_word request ++ b' ' ∷ get_string id)
        ≡ some (ask_remote request id)
  unfolding read_line
  read_line-remote request id small small' = rw (remote_tokens request id small) (
      remote_branch request (get_string id) id (try_string_to_module_id-get_string id small small'))

  -- On a command word, a blank and the string that `getString` gives for an id, the console asks
  -- for that command on that id, once, and goes on. The type must have 16 bits and the instance
  -- must be below 2^31, which is as much as `stoi` reads; the tokenizer must give the two parts at
  -- a separator that stands between them and in neither.
  pub console_turn-remote :
      {S : Type 0} (controller : InstanceController S) (request : ControlRequest)
      (id : ModuleUniqueId) (s : S)
      → id.type_id < 2 ^ 16
      → id.instance_id < 2 ^ 31
      → console_turn tokens controller (command_word request ++ b' ' ∷ get_string id) s
        ≡ some (false, (controller.request_remote_instance request id s).1)
  unfolding console_turn obey_command
  console_turn-remote controller request id s small small' =
      rw (read_line-remote request id small small') refl
