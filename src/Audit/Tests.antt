-- ===== src/Audit/Tests.antt =====
-- crates/ai-daemon/src/audit.rs: the theorems, and the cases of its tests, with a small format in
-- place of JSON and SHA-256.
use ai_daemon.Prelude.{
  ◌+◌, String, ◌≡◌, refl, ◌⊎◌, true, false, Option, none, some, List, [], ◌∷◌, ◌==◌, if◌then◌else◌,
  str_append, is_blank,
}
use Prim.Native.Char.{code}
use ai_daemon.Audit.{
  cut, append, write_line, head_of, whole_line, Identity, Record, all_lines, going, stopped,
  changed, missing_before, check_link, new_audit, step_record, step_line, walk, verify,
  session_start, session_end, denied,
}
use ai_daemon.Audit.Chain.{Act, writes, reopens, acts, written, Serialises, written-verify}
use ai_daemon.Audit.Tamper.{records, Collision, history_fixed}

abbrev hash : String → String
hash l = str_append "#" l

-- A line is "-", or "+" before the hash it carries, whatever else the record holds.
abbrev line_for : Option String → String
line_for none = "-"
line_for (some h) = String.◌∷◌ "+" h

abbrev to_line : Record → Option String
to_line r = some (line_for r.prev)

abbrev carried : String → Option (Option String)
carried String.[] = none
carried (String.◌∷◌ c s) = if code c == 43 then some (some s) else some none

line_for-carried : (p : Option String) → carried (line_for p) ≡ some p
line_for-carried none = refl
line_for-carried (some h) = refl

line_for-solid : (p : Option String) → is_blank (line_for p) ≡ false
unfolding is_blank
line_for-solid none = refl
line_for-solid (some h) = refl

serialises : Serialises hash carried to_line
serialises r = (line_for r.prev, refl, line_for-carried r.prev, line_for-solid r.prev)

abbrev alice : Identity
alice = record { key = "uid:1"; class = "native"; uid = 1; pid = 2 }

abbrev day : List Act
day =
    writes (session_start 5 alice "s1" "chat" "d" true) whole_line
    ∷ writes (session_end 6 alice "s1" "chat" 10 20 0) whole_line
    ∷ reopens
    ∷ writes (denied 7 alice "embed" "no") whole_line
    ∷ []

written-verify_example :
    let log = acts hash carried to_line day (new_audit hash carried true [] "") in
    verify hash carried log.lines log.partial
    ≡ going log.head (written hash carried to_line day) (written hash carried to_line day + 1)
written-verify_example =
    written-verify hash carried to_line day serialises (refl, (refl, (refl, tt)))

-- One record reaches the file, the next does not, and the one after does.
abbrev with_a_gap : List Act
with_a_gap =
    writes (session_start 5 alice "s1" "chat" "d" true) whole_line
    ∷ writes (denied 6 alice "embed" "no") (cut "")
    ∷ writes (denied 7 alice "embed" "no") whole_line
    ∷ []

gap_is_found :
    let log = acts hash carried to_line with_a_gap (new_audit hash carried true [] "") in
    verify hash carried log.lines log.partial ≡ stopped 2 changed
unfolding append write_line new_audit head_of verify all_lines walk step_line step_record check_link
    is_blank
gap_is_found = refl

-- A record that was changed, and one that was removed, are named at the next line.
edited : verify hash carried ("-" ∷ "+#=" ∷ []) "" ≡ stopped 2 changed
unfolding verify all_lines walk step_line step_record check_link is_blank
edited = refl

removed : verify hash carried ("+#-" ∷ []) "" ≡ stopped 1 missing_before
unfolding verify all_lines walk step_line step_record check_link is_blank
removed = refl

history_fixed_example :
    (records [] ("-" ∷ []) ≡ records [] ("" ∷ "-" ∷ [])) ⊎ Collision hash carried
unfolding verify all_lines walk step_line step_record check_link is_blank
history_fixed_example =
    history_fixed hash carried ("-" ∷ []) ("" ∷ "-" ∷ []) [] [] "+#-" (some "#+#-") (some "#+#-") 2
      2 3 4 refl refl refl
