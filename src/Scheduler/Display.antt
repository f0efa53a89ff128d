-- ===== src/Scheduler/Display.antt =====
-- `_BuildDisplay` of src/smart_build/scheduler.py. The stream is the text written to it so far; its
-- `flush` is not modelled. Whether the stream updates in place and takes colours is given.
pub mod Bar
use smart_build.Prelude.{
  ℕ, zero, suc, ◌+◌, ◌-◌, ◌*◌, ◌/◌, String, Bool, true, false, not, Option, none, some, beq, ◌&&◌,
  if◌then◌else◌,
}
use Prim.Native.String.{◌++◌ as ◌⧺◌, len, char_at}
use Prim.Native.Char.{code}
use smart_build.Prelude.Texts.{◌==◌}
use smart_build.Prelude.Numerals.{show, repeat}

pub data Status : Type 0 where
  success skipped failed : Status

pub record Display : Type 0 where
  pub stream : String
  pub total : ℕ
  pub verbose : Bool
  pub interactive : Bool
  pub color : Bool
  pub rendered : Bool
  pub completed : ℕ
  pub current_task : Option String

-- `_BuildDisplay.__init__`, where the terminal's two properties are what `_is_tty` and the
-- environment give
abbrev pub new_display : (stream : String) (total : ℕ) (verbose updates color : Bool) → Display
new_display stream total verbose updates color = record {
  stream = stream;
  total = total;
  verbose = verbose;
  interactive = not verbose && updates;
  color = color;
  rendered = false;
  completed = 0;
  current_task = none;
}

abbrev pub status_name : Status → String
status_name success = "success"
status_name skipped = "skipped"
status_name failed = "failed"

abbrev pub status_color : Status → String
status_color success = "32"
status_color skipped = "33"
status_color failed = "31"

abbrev pub is_failed : Status → Bool
is_failed success = false
is_failed skipped = false
is_failed failed = true

abbrev pub bar_width : ℕ
bar_width = 24

abbrev pub write_stream : Display → String → Display
write_stream d text = record d { stream = d.stream ⧺ text }

unfoldable pub style : Display → String → String → String
style d text code = if not d.color then text else "\u{1b}[" ⧺ code ⧺ "m" ⧺ text ⧺ "\u{1b}[0m"

unfoldable pub clear_progress : Display → Display
clear_progress d =
    if d.rendered then record (write_stream d "\r\u{1b}[2K") { rendered = false } else d

unfoldable pub filled : ℕ → ℕ → ℕ
filled completed total = elim total [ zero ↦ bar_width | suc n ↦ bar_width * completed / suc n ]

unfoldable pub bar : ℕ → ℕ → String
unfolding filled repeat
bar completed total =
    repeat "#" (filled completed total) ⧺ repeat "-" (bar_width - filled completed total)

abbrev pub task_suffix : Option String → String
task_suffix none = ""
task_suffix (some task_id) = if task_id == "" then "" else " " ⧺ task_id

unfoldable pub render_progress : Display → ℕ → Option String → Display
unfolding bar style clear_progress
render_progress d completed task_id =
    let line =
      "build: ["
      ⧺ bar completed d.total
      ⧺ "] "
      ⧺ show completed
      ⧺ "/"
      ⧺ show d.total
      ⧺ task_suffix task_id in
    record (write_stream (clear_progress d) ("\r" ⧺ style d line "36")) { rendered = true }

unfoldable pub write_line : Display → String → Display
write_line d text = write_stream d (text ⧺ "\n")

abbrev pub counter : Display → ℕ → String → String
counter d index task_id = "build: [" ⧺ show index ⧺ "/" ⧺ show d.total ⧺ "] " ⧺ task_id

unfoldable pub task_started : Display → ℕ → String → Display
unfolding render_progress write_line style
task_started d index task_id =
    let d = record d { current_task = some task_id } in
    if d.verbose
    then write_line d (style d (counter d index task_id) "36")
    else if d.interactive
    then render_progress d d.completed (some task_id)
    else d

unfoldable pub task_finished : Display → ℕ → String → String → Status → Display
unfolding render_progress clear_progress write_line style
task_finished d index task_id log_path status =
    if d.verbose
    then write_line d
        (style d (status_name status ⧺ ": " ⧺ task_id ⧺ " log=" ⧺ log_path) (status_color status))
    else let d1 = if d.interactive then clear_progress d else d in
      let line =
        counter d index task_id
        ⧺ ": "
        ⧺ status_name status
        ⧺ (if is_failed status then " log=" ⧺ log_path else "") in
      let d2 = write_line d1 (style d1 line (status_color status)) in
      let d3 = if is_failed status then d2 else record d2 { completed = index } in
      if d3.interactive
      then render_progress d3 d3.completed
          (if beq d3.completed d3.total then none else some task_id)
      else d3

-- `text.endswith("\n")`
ends_line : String → Bool
ends_line String.[] = false
ends_line (String.◌∷◌ c String.[]) = beq (code c) b'\n'
ends_line (String.◌∷◌ _ (String.◌∷◌ c s)) = ends_line (String.◌∷◌ c s)

-- the newline that is added to a text which does not end with one
unfoldable pub line_end : String → String
unfolding ends_line
line_end text = if not (text == "") && not (ends_line text) then "\n" else ""

unfoldable pub console_message : Display → String → Display
unfolding render_progress clear_progress line_end
console_message d message =
    let d1 = if d.interactive then clear_progress d else d in
    let d2 = write_stream d1 (message ⧺ line_end message) in
    if d2.interactive then render_progress d2 d2.completed d2.current_task else d2

unfoldable pub close : Display → Display
close d =
    if d.interactive && d.rendered then record (write_stream d "\n") { rendered = false } else d
