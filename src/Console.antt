-- ===== src/Console.antt =====
-- src/ZmfConsole.cpp: the console that controls an instance.
pub mod Remote
mod Examples
use zmf.Prelude.{
  ℕ, zero, suc, ◌%◌, ◌^◌, ◌-◌, ◌==◌, Bool, true, false, ◌||◌, Bytes, codes, bytes_eq, Option, none,
  some, List, [], ◌∷◌, if◌then◌else◌,
}
use zmf.Prelude.Int.{ℤ, pos, negsuc}
use zmf.Prelude.Optional.{◌>>=◌}
use zmf.Prelude.Decimal.Parse.{stoi}
use zmf.Data.UniqueId.{ModuleUniqueId}
use zmf.Dispatcher.Incoming.{ControlRequest, request_enable, request_disable, request_stop}

-- `Poco::StringTokenizer` with no options: the tokens between the separators.
abbrev pub Tokenizer : Type 0
Tokenizer = ℕ → Bytes → List Bytes

-- What a line asks for.
pub data ConsoleCommand : Type 0 where
  nothing_entered ask_enable ask_disable ask_stop invalid_id unknown_command : ConsoleCommand
  ask_remote : ControlRequest → ModuleUniqueId → ConsoleCommand

-- IZmfInstanceController, as far as the console calls it, on a state `S`.
pub record InstanceController (S : Type 0) : Type 0 where
  pub is_stopped : S → Bool
  pub request_enable_module : S → S
  pub request_disable_module : S → S
  pub request_stop_instance : S → S
  pub join_execution : S → S
  pub request_remote_instance : ControlRequest → ModuleUniqueId → S → Bool × S

-- A cast of an `int` to an unsigned integer of `w` bits.
abbrev pub to_unsigned : ℕ → ℤ → ℕ
to_unsigned w (pos n) = n % 2 ^ w
to_unsigned w (negsuc n) = 2 ^ w - 1 - n % 2 ^ w

module _ (tokens : Tokenizer) where
  -- The id of two tokens; `none` is the exception of `stoi`, which is caught.
  id_of_tokens : List Bytes → Option ModuleUniqueId
  id_of_tokens [] = none
  id_of_tokens (a ∷ []) = none
  id_of_tokens (a ∷ b ∷ []) = do
    type ← stoi a
    instance_number ← stoi b
    some (record { type_id = to_unsigned 16 type; instance_id = to_unsigned 64 instance_number })
  id_of_tokens (a ∷ b ∷ c ∷ rest) = none

  -- tryStringToModuleId: `none` where it answers false.
  unfoldable pub try_string_to_module_id : Bytes → Option ModuleUniqueId
  unfolding id_of_tokens
  try_string_to_module_id s = id_of_tokens (tokens b':' s)

  -- The branches of the remote commands, from the tokens behind the first; there `none` is the
  -- exception of the tokenizer for an index that is out of range.
  remote_command : ControlRequest → List Bytes → Option ConsoleCommand
  remote_command request [] = none
  remote_command request (argument ∷ rest) = elim (try_string_to_module_id argument) [
    | none ↦ some invalid_id
    | some id ↦ some (ask_remote request id)
  ]

  -- The tests on the first token.
  by_first_token : Bytes → List Bytes → Option ConsoleCommand
  by_first_token first rest =
      if bytes_eq first (codes "ren") || bytes_eq first (codes "renable")
      then remote_command request_enable rest
      else if bytes_eq first (codes "rdis") || bytes_eq first (codes "rdisable")
      then remote_command request_disable rest
      else if bytes_eq first (codes "rstop")
      then remote_command request_stop rest
      else some unknown_command

  -- The tests of startConsole on a line, from its tokens; `none` is an exception, which leaves
  -- startConsole.
  command_of : Bytes → List Bytes → Option ConsoleCommand
  command_of line [] = some nothing_entered
  command_of line (first ∷ rest) =
      if bytes_eq line (codes "en") || bytes_eq line (codes "enable")
      then some ask_enable
      else if bytes_eq line (codes "dis") || bytes_eq line (codes "disable")
      then some ask_disable
      else if bytes_eq line (codes "stop")
      then some ask_stop
      else by_first_token first rest

  unfoldable pub read_line : Bytes → Option ConsoleCommand
  unfolding remote_command by_first_token command_of
  read_line line = command_of line (tokens b' ' line)

  module _ {S : Type 0} (controller : InstanceController S) where
    open controller use {
      is_stopped, request_enable_module, request_disable_module, request_stop_instance,
      join_execution, request_remote_instance,
    }

    -- What a command does, and whether startConsole returns then.
    obey_command : ConsoleCommand → S → Bool × S
    obey_command nothing_entered s = (false, s)
    obey_command ask_enable s = (false, request_enable_module s)
    obey_command ask_disable s = (false, request_disable_module s)
    obey_command ask_stop s = (true, join_execution (request_stop_instance s))
    obey_command invalid_id s = (false, s)
    obey_command unknown_command s = (false, s)
    obey_command (ask_remote request id) s =
        let (confirmed, s') = request_remote_instance request id s in (false, s')

    -- A turn of the loop, for the line that was read.
    unfoldable pub console_turn : Bytes → S → Option (Bool × S)
    unfolding obey_command
    console_turn line s = do command ← read_line line; some (obey_command command s)

    -- startConsole on the lines that are entered: whether it has returned, and the state; `none` is
    -- an exception, which leaves it.
    unfoldable pub start_console : List Bytes → S → Option (Bool × S)
    start_console [] s = some (is_stopped s, s)
    start_console (line ∷ lines) s = elim (is_stopped s) [
      | true ↦ some (true, s)
      | false ↦ elim (console_turn line s) [
        | none ↦ none
        | some (true, s') ↦ some (true, s')
        | some (false, s') ↦ start_console lines s'
      ]
    ]
