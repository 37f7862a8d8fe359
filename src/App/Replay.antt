-- ===== src/App/Replay.antt =====
-- bins/sniper/src/main.rs: what `replay` prints, and where it ends.
use sonic_edge.Base.{◌≡◌, ◌∙◌, sym, ap, refl, Option, none, some, List, [], ◌∷◌, ◌++◌, All}
use mathlib.Core.List.{append_assoc, append-nil}
use sonic_edge.Exec.{
  Error, Result, ok, err, panic, and_then, pure, continue, bind-ok, bind-err, ◌>>=◌,
}
use sonic_edge.Core.Types.{Bytes}
use sonic_edge.Core.Parse.{trim_start_matches}
use sonic_edge.Dex.Decoder.{RouterAbi, RouterCall, decode_router_calldata}
use sonic_edge.App.{
  ReplayEntry, Shell, Line, Terminal, print_line, print_call, replay_entry, replay_all,
}

abbrev pub with_lines : Terminal → List Line → Terminal
with_lines t lines = record t { printed = t.printed ++ lines }

module _ (shell : Shell) (abi : RouterAbi) where
  -- The call of an entry, none for other calldata.
  abbrev pub entry_call : ReplayEntry → Result (Option RouterCall)
  entry_call entry =
      and_then (shell.hex_decode (trim_start_matches entry.input)) (decode_router_calldata abi)

  abbrev pub IsReadable : ReplayEntry → Type 0
  IsReadable entry = (call : Option RouterCall) × (entry_call entry ≡ ok call)

  abbrev line_if_call : ReplayEntry → Result (Option RouterCall) → List Line → List Line
  line_if_call entry (ok (some call)) lines = Line.replayed entry.hash call ∷ lines
  line_if_call entry (ok none) lines = lines
  line_if_call entry (err e) lines = lines
  line_if_call entry panic lines = lines

  -- The lines of the entries that are calls, in order.
  unfoldable pub lines_of : List ReplayEntry → List Line
  lines_of [] = []
  lines_of (entry ∷ entries) = line_if_call entry (entry_call entry) (lines_of entries)

  -- Both steps of an entry as one.
  replay_entry_lem :
      (entry : ReplayEntry) (t : Terminal)
      → replay_entry shell abi entry t ≡ continue (entry_call entry) (print_call entry.hash) t
  unfolding replay_entry ◌>>=◌
  replay_entry_lem entry t = joined (shell.hex_decode (trim_start_matches entry.input))
    where
      joined :
          (r : Result Bytes)
          → continue r
              (λ input. continue (decode_router_calldata abi input) (print_call entry.hash))
              t
            ≡ continue (and_then r (decode_router_calldata abi)) (print_call entry.hash) t
      joined (ok input) = refl
      joined (err e) = refl
      joined panic = refl

  replay_entry-readable :
      (entry : ReplayEntry) (t : Terminal)
      → IsReadable entry
      → replay_entry shell abi entry t
        ≡ (ok tt, with_lines t (line_if_call entry (entry_call entry) []))
  unfolding print_call print_line pure
  replay_entry-readable entry t (none, q) =
      replay_entry_lem entry t
      ∙ rw q (ap (λ ls. (ok tt, record t { printed = ls })) (sym (append-nil t.printed)))
  replay_entry-readable entry t (some call, q) = replay_entry_lem entry t ∙ rw q refl

  lines_of-cons :
      (entry : ReplayEntry) (entries : List ReplayEntry) (r : Result (Option RouterCall))
      → line_if_call entry r (lines_of entries) ≡ line_if_call entry r [] ++ lines_of entries
  lines_of-cons entry entries (ok none) = refl
  lines_of-cons entry entries (ok (some call)) = refl
  lines_of-cons entry entries (err e) = refl
  lines_of-cons entry entries panic = refl

  -- The readable entries in front print their lines, and then the rest follows.
  replay_all-append :
      (before rest : List ReplayEntry) (t : Terminal)
      → All IsReadable before
      → replay_all shell abi (before ++ rest) t
        ≡ replay_all shell abi rest (with_lines t (lines_of before))
  unfolding replay_all lines_of
  replay_all-append [] rest t h =
      ap (λ ls. replay_all shell abi rest (record t { printed = ls })) (sym (append-nil t.printed))
  replay_all-append (entry ∷ before) rest t h =
      let line = line_if_call entry (entry_call entry) [] in
      bind-ok _ _ t (with_lines t line) tt (replay_entry-readable entry t h.0)
      ∙ replay_all-append before rest (with_lines t line) h.1
      ∙ ap (λ ls. replay_all shell abi rest (record t { printed = ls }))
          (append_assoc t.printed line (lines_of before)
            ∙ ap (λ ls. t.printed ++ ls) (sym (lines_of-cons entry before (entry_call entry))))

  -- A replay prints, for the entries in front that can be read, a line for each call, in order; it
  -- returns if they are all, and it ends with the error of the first that cannot be read, for its
  -- hexadecimal text or for its arguments, and prints nothing for that one and those behind it.
  pub replay_all-prefix :
      (before behind : List ReplayEntry) (bad : ReplayEntry) (e : Error) (t : Terminal)
      → All IsReadable before
      → entry_call bad ≡ err e
      → (replay_all shell abi before t ≡ (ok tt, with_lines t (lines_of before)))
        × (replay_all shell abi (before ++ bad ∷ behind) t
            ≡ (err e, with_lines t (lines_of before)))
  unfolding replay_all pure
  replay_all-prefix before behind bad e t h failed = (
    ap (λ es. replay_all shell abi es t) (sym (append-nil before))
        ∙ replay_all-append before [] t h,
    replay_all-append before (bad ∷ behind) t h ∙ ended (with_lines t (lines_of before)),
  )
    where
      ended : (s : Terminal) → replay_all shell abi (bad ∷ behind) s ≡ (err e, s)
      ended s = bind-err _ _ s s e (replay_entry_lem bad s ∙ rw failed refl)
