-- ===== src/Audit/Chain.antt =====
-- crates/ai-daemon/src/audit.rs: what the writer appends, across restarts, the verifier accepts.
use ai_daemon.Prelude.{
  ℕ, suc, ◌+◌, String, ◌≡◌, refl, sym, ap, ◌∙◌, subst, true, false, Option, none, some, List, [],
  ◌∷◌, ◌++◌, arith, str_eq_refl, str_append, is_blank,
}
use ai_daemon.Audit.{
  Record, Audit, all_lines, backwards, Progress, going, check_link, head_of, new_audit, step_record,
  step_line, walk, verify, append, Wrote, whole_line, write_line,
}
use Prim.Native.String.append

-- What happens to a log: a record is written, with what reaches the file, or the daemon starts
-- again over the file.
pub data Act : Type 0 where
  writes : Record → Wrote → Act
  reopens : Act

-- Every record reaches the file.
abbrev pub AllReach : List Act → Type 0
AllReach [] = Unit {0}
AllReach (writes r wrote ∷ rest) = (wrote ≡ whole_line) × AllReach rest
AllReach (reopens ∷ rest) = AllReach rest

module _ (hash_line : String → String) (carried : String → Option (Option String))
    (to_line : Record → Option String) where
  abbrev pub act : Act → Audit → Audit
  act (writes r wrote) s = append hash_line to_line wrote r s
  act reopens s = new_audit hash_line carried true s.lines s.partial

  abbrev pub acts : List Act → Audit → Audit
  acts [] s = s
  acts (a ∷ rest) s = acts rest (act a s)

  abbrev pub written : List Act → ℕ
  written [] = 0
  written (writes r wrote ∷ rest) = suc (written rest)
  written (reopens ∷ rest) = written rest

  -- What serde_json does: a record has a line, which is not blank, and from which the field
  -- `prev` is read back.
  abbrev pub Serialises : Type 0
  Serialises =
      (r : Record)
      → (line : String) × (to_line r ≡ some line)
        × (carried line ≡ some r.prev)
        × (is_blank line ≡ false)

  -- The log after `n` records: the verifier's walk ends at the head that the writer holds, and a
  -- restart finds that head again.
  pub record Intact (s : Audit) (n : ℕ) : Type 0 where
    pub opened : s.open_file ≡ true
    pub whole : s.partial ≡ ""
    pub walked : walk hash_line carried s.lines (going none 0 1) ≡ going s.head n (n + 1)
    pub found : head_of hash_line carried s.lines "" ≡ s.head

  pub walk-append :
      (xs ys : List String) (p : Progress)
      → walk hash_line carried (xs ++ ys) p
        ≡ walk hash_line carried ys (walk hash_line carried xs p)
  unfolding walk
  walk-append [] ys p = refl
  walk-append (x ∷ xs) ys p = walk-append xs ys (step_line hash_line carried x p)

  backwards-append :
      (xs acc : List String) (l : String) → backwards (xs ++ (l ∷ [])) acc ≡ l ∷ backwards xs acc
  backwards-append [] acc l = refl
  backwards-append (x ∷ xs) acc l = backwards-append xs (x ∷ acc) l

  check_link_refl : (a : Option String) → check_link a a ≡ none
  unfolding check_link
  check_link_refl none = refl
  check_link_refl (some a) = rw (str_eq_refl a)

  step_good :
      (l : String) (h : Option String) (c n : ℕ)
      → is_blank l ≡ false
      → carried l ≡ some h
      → step_line hash_line carried l (going h c n) ≡ going (some (hash_line l)) (c + 1) (n + 1)
  unfolding step_line step_record
  step_good l h c n b e = rw (b, e, step_line, step_record, check_link_refl h)

  head_of_last :
      (xs : List String) (l : String) (prev : Option String)
      → is_blank l ≡ false
      → carried l ≡ some prev
      → head_of hash_line carried (xs ++ (l ∷ [])) "" ≡ some (hash_line l)
  unfolding head_of all_lines
  head_of_last xs l prev b e = rw (head_of, all_lines, backwards-append xs [] l, b, e)

  pub appended :
      (r : Record) (s : Audit) (line : String)
      → s.open_file ≡ true
      → to_line (record r { prev = s.head }) ≡ some line
      → append hash_line to_line whole_line r s ≡ record {
        open_file = true;
        lines = s.lines ++ (str_append s.partial line ∷ []);
        partial = "";
        head = some (hash_line line);
      }
  unfolding append write_line
  appended r s line o e =
      rw (o, e, append, write_line)
        (ap
          (λ b. record {
            open_file = b;
            lines = s.lines ++ (str_append s.partial line ∷ []);
            partial = "";
            head = some (hash_line line);
          })
          o)

  walked_one :
      (xs : List String) (l : String) (h : Option String) (n : ℕ)
      → is_blank l ≡ false
      → carried l ≡ some h
      → walk hash_line carried xs (going none 0 1) ≡ going h n (n + 1)
      → walk hash_line carried (xs ++ (l ∷ [])) (going none 0 1)
        ≡ going (some (hash_line l)) (n + 1) (n + 1 + 1)
  unfolding walk
  walked_one xs l h n b e w =
      walk-append xs (l ∷ []) (going none 0 1)
      ∙ ap (step_line hash_line carried l) w
      ∙ step_good l h n (n + 1) b e

  append-Intact :
      (r : Record) (s : Audit) (n : ℕ)
      → Serialises
      → Intact s n
      → Intact (append hash_line to_line whole_line r s) (n + 1)
  append-Intact r s n ser i =
      let (line, is_line, link, solid) = ser (record r { prev = s.head }) in
      let after : String → Audit = λ l. record {
        open_file = true;
        lines = s.lines ++ (l ∷ []);
        partial = "";
        head = some (hash_line line);
      } in
      let joined : str_append s.partial line ≡ line =
        ap (λ p. str_append p line) i.whole ∙ append.nil line in
      let done : Intact (after line) (n + 1) = record {
        opened = refl;
        whole = refl;
        walked = walked_one s.lines line s.head n solid link i.walked;
        found = head_of_last s.lines line s.head solid link;
      } in
      subst (λ t. Intact t (n + 1)) (sym (appended r s line i.opened is_line ∙ ap after joined))
        done

  reopen-Intact :
      (s : Audit) (n : ℕ)
      → Intact s n
      → Intact (new_audit hash_line carried true s.lines s.partial) n
  unfolding new_audit
  reopen-Intact s n i =
      let same : head_of hash_line carried s.lines s.partial ≡ s.head =
        ap (head_of hash_line carried s.lines) i.whole ∙ i.found in
      record {
        opened = refl;
        whole = i.whole;
        walked = i.walked ∙ ap (λ h. going h n (n + 1)) (sym same);
        found = i.found ∙ sym same;
      }

  pub acts-Intact :
      (xs : List Act) (s : Audit) (n : ℕ)
      → Serialises
      → AllReach xs
      → Intact s n
      → Intact (acts xs s) (n + written xs)
  acts-Intact [] s n ser reach i = subst (Intact s) (omega arith) i
  acts-Intact (writes r wrote ∷ xs) s n ser (whole, reach) i =
      subst (Intact (acts xs (act (writes r wrote) s))) (omega arith) (
        acts-Intact xs (act (writes r wrote) s) (n + 1) ser reach (
          subst (λ w. Intact (act (writes r w) s) (n + 1)) (sym whole) (append-Intact r s n ser i)))
  acts-Intact (reopens ∷ xs) s n ser reach i =
      acts-Intact xs (act reopens s) n ser reach (reopen-Intact s n i)

  pub new-Intact : Intact (new_audit hash_line carried true [] "") 0
  unfolding new_audit head_of all_lines walk
  new-Intact = record { opened = refl; whole = refl; walked = refl; found = refl }

  -- A log that only the daemon wrote verifies, if none of its writes to the file failed: from an
  -- empty file, after any records and any restarts in any order, the verifier accepts the file, has
  -- counted every record written and expects next the very hash that the writer will put into its
  -- next record. A record always serialises, to a line that is not blank and from which `prev` is
  -- read back.
  pub written-verify :
      (xs : List Act)
      → Serialises
      → AllReach xs
      → let log = acts xs (new_audit hash_line carried true [] "") in
        verify hash_line carried log.lines log.partial
        ≡ going log.head (written xs) (written xs + 1)
  unfolding verify all_lines
  written-verify xs ser reach =
      let log = acts xs (new_audit hash_line carried true [] "") in
      let i : Intact log (0 + written xs) = acts-Intact xs _ 0 ser reach new-Intact in
      rw (i.whole, all_lines, verify) (i.walked ∙ ap (λ k. going log.head k (k + 1)) (omega arith))
