-- ===== src/Proto/Settings.antt =====
-- packages/proto/jarvis_proto/settings.py: the settings that decide when a tool call stops to ask, and
-- those of delegated tasks.
pub mod Asking
pub mod Recipients
use jarvis.Prelude.{
  ℕ, ◌-◌, Bool, true, false, not, ◌&&◌, ◌||◌, Option, none, some, List, [], ◌∷◌, ◌++◌, Text, text,
  text_eq, ◌==◌, if◌then◌else◌, any, is_nil, strip, starts, ends, before_dot, after_dot, or_else,
  lower, length, take, drop,
}

-- `name.split(".", 1)[-1]`
abbrev pub last_part : Text → Text
last_part name = or_else (after_dot name) name

-- An exact name, `*`, `namespace.*` or `*.tool`.
unfoldable pub tool_matches : Text → Text → Bool
unfolding text_eq text ends starts after_dot
tool_matches name pattern =
    if text_eq pattern name || text_eq pattern (text "*")
    then true
    else if ends (text ".*") pattern
    then starts (take (length pattern - 1) pattern) name
    else if starts (text "*.") pattern
    then text_eq (last_part name) (drop 2 pattern)
    else false

pub data ConfirmMode : Type 0 where
  destructive off : ConfirmMode

abbrev pub is_off : ConfirmMode → Bool
is_off ConfirmMode.off = true
is_off ConfirmMode.destructive = false

pub record Confirmations : Type 0 where
  pub mode : ConfirmMode
  pub always_allow : List Text
  pub always_ask : List Text
  pub outbound_check : List Text

unfoldable pub matches_any : Text → List Text → Bool
unfolding tool_matches
matches_any name patterns = any (λ p. tool_matches name p) patterns

unfoldable pub checks_outbound : Confirmations → Text → Bool → Bool
unfolding matches_any
checks_outbound c name unattended = not unattended && matches_any name c.outbound_check

unfoldable pub needs_confirmation : Confirmations → Text → Bool → Bool → Bool
unfolding matches_any
needs_confirmation c name risky unattended =
    if matches_any name c.always_ask
    then not unattended
    else if unattended || is_off c.mode
    then false
    else if matches_any name c.always_allow
    then false
    else risky

pub record TasksSettings : Type 0 where
  pub enabled : Bool
  pub max_running : ℕ
  pub max_depth : ℕ
  pub no_approval : List Text
  pub deny_tools : List Text
  pub approval_ttl_s : ℕ
  pub call_drop_after_s : ℕ

unfoldable pub default_tasks : TasksSettings
unfolding text
default_tasks = record {
  enabled = false;
  max_running = 1;
  max_depth = 1;
  no_approval =
      text "files.attach"
      ∷ text "task.*"
      ∷ text "notes.*"
      ∷ text "kg.*"
      ∷ text "fetch.fetch"
      ∷ text "browser.open"
      ∷ text "browser.scroll"
      ∷ [];
  deny_tools = text "*.shell_run" ∷ text "*.fs_write" ∷ text "*.fs_edit" ∷ [];
  approval_ttl_s = 14_400;
  call_drop_after_s = 240;
}

unfoldable pub frees : TasksSettings → Text → Bool
unfolding matches_any
frees s name = matches_any name s.no_approval

unfoldable pub denies : TasksSettings → Text → Bool
unfolding matches_any
denies s name = matches_any name s.deny_tools

unfoldable pub needs_approval : TasksSettings → Text → Bool → Confirmations → Bool
unfolding matches_any needs_confirmation
needs_approval s name risky confirmations =
    if matches_any name s.no_approval
    then false
    else risky || needs_confirmation confirmations name risky false
