-- ===== src/Guest/Summary.antt =====
-- _verify_ping_result on the summary that ping prints (resources/libraries/python/guest.py).
use Prim.Native.Char.{Char}
use cne_ovs_sit.Base.{
  ℕ, String, true, false, not, Option, none, some, append, show, unsigned, is_digit, is_space,
  AllDigits, AllDigits-show, unsigned-show, ltb, ◌==◌, ok, ◌≡◌, refl, ap, ◌∙◌, if◌then◌else◌, arith,
}
use cne_ovs_sit.Guest.Scan.{
  opt_then, if_any, span, some_of, blanks, digits, literal, search, number_of,
}
use cne_ovs_sit.Guest.Ping.{count_before, verify_ping_result}

digit-not_space : (c : Char) → is_digit c ≡ true → is_space c ≡ false
digit-not_space c h = ground arith

span-append :
    (ds : String) (c : Char) (s : String)
    → AllDigits ds
    → is_digit c ≡ false
    → span is_digit (append ds (String.◌∷◌ c s)) ≡ (ds, String.◌∷◌ c s)
unfolding span append
span-append String.[] c s h end = rw end refl
span-append (String.◌∷◌ d ds) c s h end = rw (span-append ds c s h.1 end, h.0) refl

digits-append :
    (ds : String) (c : Char) (s : String) (n : ℕ)
    → AllDigits ds
    → unsigned ds ≡ some n
    → is_digit c ≡ false
    → digits (append ds (String.◌∷◌ c s)) ≡ some (ds, String.◌∷◌ c s)
unfolding some_of unsigned
digits-append String.[] c s n h number end = cc
digits-append (String.◌∷◌ d ds) c s n h number end =
    ap if_any (span-append (String.◌∷◌ d ds) c s h end)

search-append :
    (label : String) (ds : String) (s : String)
    → AllDigits ds
    → search (count_before label) (append ds s) ≡ search (count_before label) s
unfolding search append some_of span
search-append label String.[] s h = refl
search-append label (String.◌∷◌ d ds) s h =
    rw (search, digit-not_space d h.0) (search-append label ds s h.1)

span_blank-append :
    (ds : String) (s : String) (n : ℕ)
    → AllDigits ds
    → unsigned ds ≡ some n
    → span is_space (append ds s) ≡ ("", append ds s)
unfolding span append unsigned
span_blank-append String.[] s n h number = cc
span_blank-append (String.◌∷◌ d ds) s n h number = rw (span, digit-not_space d h.0) refl

blanks-one :
    (b : Char) (s : String)
    → is_space b ≡ true
    → span is_space s ≡ ("", s)
    → blanks (String.◌∷◌ b s) ≡ some s
unfolding some_of span
blanks-one b s blank next = rw (some_of, span, blank, next) refl

black_span :
    (c : Char) (s : String)
    → is_space c ≡ false
    → span is_space (String.◌∷◌ c s) ≡ ("", String.◌∷◌ c s)
unfolding span
black_span c s black = rw (span, black) refl

-- A blank, a number, a space, and the label or not.
count_before-number :
    (label : String) (b c : Char) (n : ℕ) (s : String)
    → is_space b ≡ true
    → is_space c ≡ false
    → count_before label (String.◌∷◌ b (append (show n) (append " " (String.◌∷◌ c s))))
      ≡ opt_then (literal label (String.◌∷◌ c s)) (λ s. some (show n))
unfolding append
count_before-number label b c n s blank black =
    ap
      (λ o. opt_then o (λ s.
        opt_then (digits s)
          (λ p. opt_then (blanks p.1) (λ s. opt_then (literal label s) (λ s. some p.0)))))
      (blanks-one b _ blank (
        span_blank-append (show n) (append " " (String.◌∷◌ c s)) n (AllDigits-show n)
          (unsigned-show n)))
    ∙ ap
        (λ o.
          opt_then o (λ p. opt_then (blanks p.1) (λ s. opt_then (literal label s) (λ s. some p.0))))
        (digits-append (show n) _ _ n (AllDigits-show n) (unsigned-show n) refl)
    ∙ ap (λ o. opt_then o (λ s'. opt_then (literal label s') (λ s. some (show n))))
        (blanks-one _ _ refl (black_span c s black))

abbrev pub summary : ℕ → ℕ → String → String
summary sent recv rest = append "\n" (
    append (show sent)
      (append " packets transmitted, " (append (show recv) (append " received" rest))))

number_of-show : (n : ℕ) → number_of (show n) ≡ n
unfolding number_of
number_of-show n = rw (number_of, unsigned-show n) refl

module _ {A : Type 0} (match : String → Option A) (c : Char) (s : String) where
  search-found : {a : A} → match (String.◌∷◌ c s) ≡ some a → search match (String.◌∷◌ c s) ≡ some a
  unfolding search
  search-found h = rw (search, h) refl

  search-skip : match (String.◌∷◌ c s) ≡ none → search match (String.◌∷◌ c s) ≡ search match s
  unfolding search
  search-skip h = rw (search, h) refl

search-sent :
    (sent recv : ℕ) (rest : String)
    → search (count_before "packets transmitted") (summary sent recv rest) ≡ some (show sent)
unfolding append literal
search-sent sent recv rest =
    search-found (count_before "packets transmitted") _ _
      (count_before-number "packets transmitted" _ _ sent _ refl refl)

skip_sent :
    (sent : ℕ) (more : String)
    → search
        (count_before "received")
        (append "\n" (append (show sent) (append " packets transmitted," more)))
      ≡ search (count_before "received") (append (show sent) (append " packets transmitted," more))
unfolding append literal
skip_sent sent more =
    search-skip (count_before "received") _ _ (count_before-number "received" _ _ sent _ refl refl)

skip_words :
    (more : String)
    → search (count_before "received") (append " packets transmitted," more)
      ≡ search (count_before "received") more
unfolding append literal search some_of span
skip_words more = refl

found_recv :
    (recv : ℕ) (rest : String)
    → search (count_before "received") (append " " (append (show recv) (append " received" rest)))
      ≡ some (show recv)
unfolding append literal
found_recv recv rest =
    search-found (count_before "received") _ _ (count_before-number "received" _ _ recv _ refl refl)

search-recv :
    (sent recv : ℕ) (rest : String)
    → search (count_before "received") (summary sent recv rest) ≡ some (show recv)
unfolding append
search-recv sent recv rest =
    let more = append " " (append (show recv) (append " received" rest)) in
    skip_sent sent more
    ∙ search-append "received" (show sent) (append " packets transmitted," more)
        (AllDigits-show sent)
    ∙ skip_words more
    ∙ found_recv recv rest

-- The verdict on a summary with the two counts, whatever follows it: the pings that were expected were
-- sent, and no fewer came back.
pub verify_ping_result-summary :
    (sent recv exp_cnt : ℕ) (rest : String)
    → verify_ping_result (summary sent recv rest) exp_cnt
      ≡ ok (if sent == exp_cnt then not (ltb recv exp_cnt) else false)
unfolding verify_ping_result
verify_ping_result-summary sent recv exp_cnt rest =
    rw
      (
        verify_ping_result,
        search-sent sent recv rest,
        search-recv sent recv rest,
        number_of-show sent,
        number_of-show recv,
      )
      refl
