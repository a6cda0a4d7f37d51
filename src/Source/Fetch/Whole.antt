-- ===== src/Source/Fetch/Whole.antt =====
-- A source takes its address from the whole of a bounded output, by internal/source.
use hetdns.Prelude.{
  ℕ, ◌≤◌, ◌<◌, ◌≡◌, inl, inr, refl, ap, sym, ◌∙◌, Bool, true, false, Option, none, some, arith,
  length, take, take-all, length-take, Bool-cases, ltb, leb, ◌||◌, ◌+◌, if◌then◌else◌, List,
}
use hetdns.Prelude.Text.{Text, text}
use hetdns.Addr.{Addr, Netip}
use hetdns.Source.Parse.{address, failed, parse_address}
use hetdns.Source.Buffer.{new_buffer, write_all, all_bytes, buffer_keeps}
use hetdns.Source.Fetch.{
  HttpSource, CommandSource, Web, Answer, Ran, Exit, succeeded, timed_out, output_limit,
  unsuccessful, Invocation, max_source_output, read_answer, on_answer, request, fetch_http, on_exit,
  invocation, fetch_command,
}

module _ {W : Type 0} (netip : Netip) (web : Web W) (s : HttpSource) (b : Addr) where
  -- A whole body of at most 1024 bytes that came with a 2xx status.
  abbrev pub WholeAnswer : Answer → Type 0
  WholeAnswer r =
      (200 ≤ r.status)
      × (r.status < 300)
      × ((body : Text) × (r.body ≡ some body)
          × (length body ≤ 1024)
          × (parse_address netip body s.family s.allow_non_public ≡ address b))

  short_body :
      (body : Text)
      → ltb max_source_output (length (take (max_source_output + 1) body)) ≡ false
      → length body ≤ 1024
  short_body body h = ground (arith, length-take (max_source_output + 1) body, h)

  in_range :
      (status : ℕ) → (ltb status 200 || leb 300 status) ≡ false → (200 ≤ status) × (status < 300)
  in_range status h = ground (arith, h)

  read_answer-Whole :
      (status : ℕ) (body : Option Text)
      → read_answer netip web s status body ≡ address b
      → WholeAnswer (record { status = status; body = body })
  unfolding read_answer
  read_answer-Whole status none h = absurd (ground (arith, h))
  read_answer-Whole status (some body) h = elim (Bool-cases (ltb status 200 || leb 300 status)) [
    | inl bad ↦ absurd (ground (arith, h, bad))
    | inr good ↦
        elim (Bool-cases (ltb max_source_output (length (take (max_source_output + 1) body)))) [
          | inl long ↦ absurd (ground (arith, h, good, long))
          | inr short ↦
              let (low, high) = in_range status good in
              let le = short_body body short in
              let whole = take-all (max_source_output + 1) body (omega (arith, le)) in
              let parsed : parse_address netip (take (max_source_output + 1) body) s.family
                    s.allow_non_public
                  ≡ address b =
                ground (arith, h, good, short) in
              (
                low,
                high,
                (
                  body,
                  refl,
                  le,
                  ap (λ output. parse_address netip output s.family s.allow_non_public) (sym whole)
                      ∙ parsed,
                ),
              )
        ]
  ]

  on_answer-Whole :
      (r : Option Answer × W)
      → (on_answer netip web s r).0 ≡ address b
      → (answer : Answer) × (r.0 ≡ some answer) × WholeAnswer answer
  unfolding on_answer
  on_answer-Whole (none, w) h = absurd (ground (arith, h))
  on_answer-Whole (some r, w) h = (r, refl, read_answer-Whole r.status r.body h)

  fetched-Whole :
      (accepted : Bool) (w : W)
      → (if accepted
          then on_answer netip web s (web.send (request netip web s) w)
          else (failed (text "create source request"), w)).0
        ≡ address b
      → (answer : Answer) × ((web.send (request netip web s) w).0 ≡ some answer)
        × WholeAnswer answer
  fetched-Whole true w h = on_answer-Whole _ h
  fetched-Whole false w h = absurd (ground (arith, h))

-- An HTTP source yields an address only from a response that came with a 2xx status and whose whole
-- body, of at most 1024 bytes, is that address.
pub fetch_http-Whole :
    {W : Type 0} (netip : Netip) (web : Web W) (s : HttpSource) (b : Addr) (w : W)
    → (fetch_http netip web s w).0 ≡ address b
    → (answer : Answer) × ((web.send (request netip web s) w).0 ≡ some answer)
      × WholeAnswer netip web s b answer
unfolding fetch_http
fetch_http-Whole netip web s b w h =
    fetched-Whole netip web s b (web.accepts (request netip web s)) w h

module _ {W : Type 0} (netip : Netip) (execute : Invocation → W → Ran × W) (s : CommandSource)
    (b : Addr) where
  -- A command that ended well and wrote at most 1024 bytes to each stream.
  abbrev pub WholeRun : Ran → Type 0
  WholeRun ran =
      (ran.exit ≡ succeeded)
      × (length (all_bytes ran.stdout) ≤ 1024)
      × (length (all_bytes ran.stderr) ≤ 1024)
      × (parse_address netip (all_bytes ran.stdout) s.family s.allow_non_public ≡ address b)

  kept :
      (chunks : List Text)
      → (write_all chunks (new_buffer max_source_output)).exceeded ≡ false
      → (length (all_bytes chunks) ≤ 1024)
        × ((write_all chunks (new_buffer max_source_output)).bytes ≡ all_bytes chunks)
  kept chunks h =
      let (first, notices, full) = buffer_keeps max_source_output chunks in
      let le : length (all_bytes chunks) ≤ 1024 = ground (arith, notices, h) in
      (le, first ∙ take-all max_source_output (all_bytes chunks) le)

  both_kept :
      (stdout stderr : List Text)
      → on_exit netip execute s succeeded
          (write_all stdout (new_buffer max_source_output))
          (write_all stderr (new_buffer max_source_output))
        ≡ address b
      → ((write_all stdout (new_buffer max_source_output)).exceeded ≡ false)
        × ((write_all stderr (new_buffer max_source_output)).exceeded ≡ false)
        × (parse_address netip
              (write_all stdout (new_buffer max_source_output)).bytes
              s.family
              s.allow_non_public
            ≡ address b)
  unfolding on_exit
  both_kept stdout stderr h = ground (arith, h)

  on_exit-Whole :
      (stdout stderr : List Text) (exit : Exit)
      → on_exit netip execute s exit
          (write_all stdout (new_buffer max_source_output))
          (write_all stderr (new_buffer max_source_output))
        ≡ address b
      → WholeRun (record { stdout = stdout; stderr = stderr; exit = exit })
  unfolding on_exit
  on_exit-Whole stdout stderr timed_out h = absurd (ground (arith, h))
  on_exit-Whole stdout stderr output_limit h = absurd (ground (arith, h))
  on_exit-Whole stdout stderr unsuccessful h = absurd (ground (arith, h))
  on_exit-Whole stdout stderr succeeded h =
      let (quiet, calm, parsed) = both_kept stdout stderr h in
      let (short, whole) = kept stdout quiet in
      (
        refl,
        short,
        (kept stderr calm).0,
        ap (λ output. parse_address netip output s.family s.allow_non_public) (sym whole) ∙ parsed,
      )

-- A command source yields an address only from a run that ended well, that wrote at most 1024 bytes
-- to each of its streams, and whose whole standard output is that address.
pub fetch_command-Whole :
    {W : Type 0} (netip : Netip) (execute : Invocation → W → Ran × W) (s : CommandSource) (b : Addr)
    (w : W)
    → (fetch_command netip execute s w).0 ≡ address b
    → WholeRun netip execute s b (execute (invocation netip execute s) w).0
unfolding fetch_command
fetch_command-Whole netip execute s b w h =
    let ran = (execute (invocation netip execute s) w).0 in
    on_exit-Whole netip execute s b ran.stdout ran.stderr ran.exit h
