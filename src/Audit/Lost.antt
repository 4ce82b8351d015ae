-- ===== src/Audit/Lost.antt =====
-- crates/ai-daemon/src/audit.rs, `append`: a record that does not reach the file, since the error of
-- its write is ignored.
use ai_daemon.Prelude.{
  ◌≢◌, str_eq_ne, ℕ, ◌+◌, String, ◌≡◌, refl, sym, ap, ◌∙◌, true, false, Option, none, some, List,
  [], ◌∷◌, ◌++◌, arith, str_append, is_blank,
}
use ai_daemon.Audit.{
  cut, whole_line, Break, missing_before, changed, stopped, Record, Audit, all_lines, going,
  check_link, new_audit, step_record, step_line, walk, verify, append, write_line,
}
use ai_daemon.Audit.Chain.{
  Act, AllReach, acts, written, Serialises, Intact, walk-append, appended, acts-Intact, new-Intact,
}
use Prim.Native.String.append

module _ (hash_line : String → String) (carried : String → Option (Option String))
    (to_line : Record → Option String) where
  -- A line that carries another hash than the one expected.
  check_link_other :
      (want : Option String) (h : String)
      → some h ≢ want
      → (why : Break) × (check_link want (some h) ≡ some why)
  unfolding check_link
  check_link_other none h other = (missing_before, refl)
  check_link_other (some w) h other =
      (changed, rw (str_eq_ne w h (λ e. other (ap some (sym e)))) refl)

  step_bad :
      (l h : String) (want : Option String) (c n : ℕ)
      → is_blank l ≡ false
      → carried l ≡ some (some h)
      → some h ≢ want
      → (why : Break) × (step_line hash_line carried l (going want c n) ≡ stopped n why)
  unfolding step_line step_record
  step_bad l h want c n b e other =
      let (why, found) = check_link_other want h other in
      (why, rw (b, e, step_line, step_record, found) refl)

  -- After a write that brought nothing into the file the head is that of the line that is lost.
  lost :
      (r : Record) (s : Audit) (line : String)
      → s.open_file ≡ true
      → to_line (record r { prev = s.head }) ≡ some line
      → append hash_line to_line (cut "") r s ≡ record {
        open_file = true;
        lines = s.lines;
        partial = str_append s.partial "";
        head = some (hash_line line);
      }
  unfolding append write_line
  lost r s line o e =
      rw (o, e, append, write_line)
        (ap
          (λ b. record {
            open_file = b;
            lines = s.lines;
            partial = str_append s.partial "";
            head = some (hash_line line);
          })
          o)

  -- What the verifier says of a file to which a record is added that carries another hash than
  -- that of the line before.
  walked_bad :
      (xs : List String) (l h : String) (want : Option String) (n : ℕ)
      → is_blank l ≡ false
      → carried l ≡ some (some h)
      → some h ≢ want
      → walk hash_line carried xs (going none 0 1) ≡ going want n (n + 1)
      → (why : Break) × (verify hash_line carried (xs ++ l ∷ []) "" ≡ stopped (n + 1) why)
  unfolding walk verify all_lines
  walked_bad xs l h want n b e other w =
      let (why, bad) = step_bad l h want n (n + 1) b e other in
      (
        why,
        (walk-append hash_line carried to_line xs (l ∷ []) (going none 0 1)
            ∙ ap (step_line hash_line carried l) w
            ∙ bad),
      )

  -- A record whose write fails breaks the daemon's own chain: after any history of which every
  -- record reached the file, if then nothing of a record `r` reaches it, and the next record `r'`
  -- does, the verifier stops at the line of `r'`, although nobody has touched the file. The hash of
  -- the lost line is taken to be another than that of the line before it.
  pub lost_write_breaks :
      (xs : List Act) (r r' : Record)
      → Serialises hash_line carried to_line
      → AllReach xs
      → let log = acts hash_line carried to_line xs (new_audit hash_line carried true [] "") in
        let gap = append hash_line to_line (cut "") r log in
        let after = append hash_line to_line whole_line r' gap in
        gap.head ≢ log.head
        → (why : Break) × (verify hash_line carried after.lines after.partial
            ≡ stopped (written hash_line carried to_line xs + 1) why)
  lost_write_breaks xs r r' ser reach =
      let log = acts hash_line carried to_line xs (new_audit hash_line carried true [] "") in
      let i : Intact hash_line carried to_line log (0 + written hash_line carried to_line xs) =
        acts-Intact hash_line carried to_line xs _ 0 ser reach
          (new-Intact hash_line carried to_line) in
      let (line, is_line, link, solid) = ser (record r { prev = log.head }) in
      let (line', is_line', link', solid') = ser (record r' { prev = some (hash_line line) }) in
      let gap : Audit = record {
        open_file = true;
        lines = log.lines;
        partial = "";
        head = some (hash_line line);
      } in
      let here : append hash_line to_line (cut "") r log ≡ gap =
        lost r log line i.opened is_line
        ∙ ap
            (λ p. record {
              open_file = true;
              lines = log.lines;
              partial = str_append p "";
              head = some (hash_line line);
            })
            i.whole in
      let after : String → Audit = λ l. record {
        open_file = true;
        lines = log.lines ++ (l ∷ []);
        partial = "";
        head = some (hash_line line');
      } in
      let there : append hash_line to_line whole_line r' gap ≡ after line' =
        appended hash_line carried to_line r' gap line' refl is_line'
        ∙ ap after (append.nil line') in
      rw (here, there)
        (λ other.
          walked_bad log.lines line' (hash_line line) log.head
            (written hash_line carried to_line xs) solid' link' other
            (i.walked ∙ ap (λ k. going log.head k (k + 1)) (omega arith)))
