-- ===== src/Listening/Tally.antt =====
-- The readers of a client, each counted once, and what the client has of them.
use discord_ext_voice_recv.Base.{
  ℕ, ◌+◌, ◌≤◌, ◌≡◌, ◌≢◌, refl, sym, ◌∙◌, subst, true, false, not, Option, none, some, List, [], ◌∷◌,
  ◌++◌, arith, length, length-append, is_empty, ◌==◌, if◌then◌else◌, Bool-cases, inl, inr,
}
use discord_ext_voice_recv.Base.Dict.{Dict, get, put, contains, remove, get-put}
use discord_ext_voice_recv.Listening.{AudioReader, new_reader, Client, is_active, stopped}

unfoldable pub count : ℕ → List ℕ → ℕ
count x [] = 0
count x (y ∷ l) = (if y == x then 1 else 0) + count x l

pub count-append :
    (x y : ℕ) (l : List ℕ) → count x (l ++ y ∷ []) ≡ count x l + (if y == x then 1 else 0)
unfolding count
count-append x y [] = ground arith
count-append x y (z ∷ l) = ground (arith, count-append x y l)

pub count-remove :
    (x y : ℕ) (l : List ℕ)
    → contains y l ≡ true
    → count x (remove y l) + (if y == x then 1 else 0) ≡ count x l
unfolding count remove contains
count-remove x y [] h = absurd (cc)
count-remove x y (z ∷ l) h = ground (arith, count-remove x y l)

pub count-contains : (x : ℕ) (l : List ℕ) → contains x l ≡ true → 1 ≤ count x l
unfolding count contains
count-contains x [] h = absurd (cc)
count-contains x (z ∷ l) h = ground (arith, count-contains x l)

-- A reader is active, or has a stopper thread, or was stopped, and just one of these, just once; what
-- its stopper ends has ended exactly when it was stopped.
pub record IsTallied (stoppers : List ℕ) (object : ℕ) (r : AudioReader) : Type 0 where
  pub once : count object stoppers + length r.after_calls + (if r.active then 1 else 0) ≡ 1
  pub cleaned : length r.cleaned ≡ length r.after_calls
  pub router_end : r.router_end ≡ not (is_empty r.after_calls)
  pub events_end : r.events_end ≡ not (is_empty r.after_calls)
  pub timer_end : r.timer_end ≡ not (is_empty r.after_calls)
  pub keepalive_end : r.keepalive_end ≡ not (is_empty r.after_calls)
  pub decryptor_closed : r.decryptor_closed ≡ not (is_empty r.after_calls)

-- What the client has, by its `_reader`.
pub data Now (c : Client) : Option ℕ → Type 0 where
  idle : c.socket_listeners ≡ [] → ((j : ℕ) → is_active c j ≡ false) → Now c none
  listening :
      (object : ℕ) (r : AudioReader)
      → c.socket_listeners ≡ object ∷ []
      → get object c.readers ≡ some r
      → r.active ≡ true
      → get r.sink c.voice_client ≡ some true
      → ((j : ℕ) → is_active c j ≡ true → j ≡ object)
      → Now c (some object)
  -- A reader that stopped itself.
  halted :
      (object : ℕ) (r : AudioReader)
      → c.socket_listeners ≡ []
      → get object c.readers ≡ some r
      → get r.sink c.voice_client ≡ some true
      → ((j : ℕ) → is_active c j ≡ false)
      → Now c (some object)

pub record IsSingle (c : Client) : Type 0 where
  pub fresh : (j : ℕ) → c.next_reader ≤ j → get j c.readers ≡ none
  pub quiet : (j : ℕ) → get j c.readers ≡ none → count j c.stoppers ≡ 0
  pub tallied : (j : ℕ) (r : AudioReader) → get j c.readers ≡ some r → IsTallied c.stoppers j r
  pub now : Now c c.reader

-- A reader that another object is stopped beside keeps its tally.
pub IsTallied-other :
    (l l' : List ℕ) (j : ℕ) (r : AudioReader)
    → count j l' ≡ count j l
    → IsTallied l j r
    → IsTallied l' j r
IsTallied-other l l' j r e t = record {
  once = omega (arith, t.once, e);
  cleaned = t.cleaned;
  router_end = t.router_end;
  events_end = t.events_end;
  timer_end = t.timer_end;
  keepalive_end = t.keepalive_end;
  decryptor_closed = t.decryptor_closed;
}

-- The tallies when one reader is written to.
pub IsTallied-put :
    (l l' : List ℕ) (object : ℕ) (new : AudioReader) (readers : Dict AudioReader)
    → IsTallied l' object new
    → ((j : ℕ) → object ≢ j → count j l' ≡ count j l)
    → ((j : ℕ) (r : AudioReader) → object ≢ j → get j readers ≡ some r → IsTallied l j r)
    → (j : ℕ) (r : AudioReader) → get j (put object new readers) ≡ some r
    → IsTallied l' j r
IsTallied-put l l' object new readers t same all j r e = elim (Bool-cases (object == j)) [
  | inl at_j ↦
      let object_j : object ≡ j = ground (arith, at_j) in
      let new_r : new ≡ r = ground (arith, at_j, get-put object j new readers, e) in
      subst (λ k. IsTallied l' k r) object_j (subst (λ x. IsTallied l' object x) new_r t)
  | inr not_j ↦
      let before : get j readers ≡ some r =
        ground (arith, not_j, get-put object j new readers, e) in
      IsTallied-other l l' j r (same j (ground (arith, not_j)))
        (all j r (ground (arith, not_j)) before)
]

abbrev pub idled : AudioReader → AudioReader
idled r = record r { active = false; retry_stop = true }

pub IsTallied-idled :
    (l : List ℕ) (object : ℕ) (r : AudioReader)
    → r.active ≡ true
    → IsTallied l object r
    → IsTallied (l ++ object ∷ []) object (idled r)
IsTallied-idled l object r active t = record {
  once = ground (arith, t.once, active, count-append object object l);
  cleaned = t.cleaned;
  router_end = t.router_end;
  events_end = t.events_end;
  timer_end = t.timer_end;
  keepalive_end = t.keepalive_end;
  decryptor_closed = t.decryptor_closed;
}

pub IsTallied-new :
    (sink object : ℕ) (l : List ℕ)
    → count object l ≡ 0
    → IsTallied l object (record (new_reader sink) { active = true })
IsTallied-new sink object l none_yet = record {
  once = omega (arith, none_yet);
  cleaned = refl;
  router_end = refl;
  events_end = refl;
  timer_end = refl;
  keepalive_end = refl;
  decryptor_closed = refl;
}

pub is_empty-append {ℓ} : {A : Type ℓ} (l : List A) (x : A) → is_empty (l ++ x ∷ []) ≡ false
is_empty-append [] x = refl
is_empty-append (y ∷ l) x = refl

pub IsTallied-stopped :
    (l : List ℕ) (object : ℕ) (r : AudioReader)
    → contains object l ≡ true
    → IsTallied l object r
    → IsTallied (remove object l) object (stopped r)
IsTallied-stopped l object r there t =
    let one = count-contains object l there in
    let less = count-remove object object l there in
    let ends : true ≡ not (is_empty (r.after_calls ++ r.error ∷ [])) =
      ground (arith, is_empty-append r.after_calls r.error) in
    record {
      once = ground (arith, t.once, one, less, length-append r.after_calls (r.error ∷ []));
      cleaned = omega (
        arith,
        t.cleaned,
        length-append r.cleaned (r.sink ∷ []),
        length-append r.after_calls (r.error ∷ []),
      );
      router_end = ends;
      events_end = ends;
      timer_end = ends;
      keepalive_end = ends;
      decryptor_closed = ends;
    }

-- What a write to a reader that neither starts nor stops it leaves.
pub is_active-put :
    (c : Client) (object j : ℕ) (r new : AudioReader) (l : List ℕ)
    → get object c.readers ≡ some r
    → new.active ≡ r.active
    → is_active (record c { stoppers = l; readers = put object new c.readers }) j ≡ is_active c j
is_active-put c object j r new l found same =
    ground (arith, get-put object j new c.readers, found, same)

pub Now-put :
    (c : Client) (object : ℕ) (r new : AudioReader) (l : List ℕ)
    → get object c.readers ≡ some r
    → new.active ≡ r.active
    → new.sink ≡ r.sink
    → (o : Option ℕ) → Now c o
    → Now (record c { stoppers = l; readers = put object new c.readers }) o
Now-put c object r new l found same_active same_sink _ (idle nobody all) =
    idle nobody (λ j. is_active-put c object j r new l found same_active ∙ all j)
Now-put c object r new l found same_active same_sink _
      (listening k x alone at_k active attached only) =
    let still =
      λ (j : ℕ)
          (e : is_active (record c { stoppers = l; readers = put object new c.readers }) j ≡ true).
        only j (sym (is_active-put c object j r new l found same_active) ∙ e) in
    elim (Bool-cases (object == k)) [
      | inl at_object ↦
          let same : r ≡ x = ground (arith, at_object, found, at_k) in
          listening k new alone (ground (arith, at_object, get-put object k new c.readers))
            (ground (arith, same_active, same, active)) (ground (arith, same_sink, same, attached))
            still
      | inr other ↦
          listening k x alone (ground (arith, other, at_k, get-put object k new c.readers)) active
            attached still
    ]
Now-put c object r new l found same_active same_sink _ (halted k x nobody at_k attached all) =
    let still = λ (j : ℕ). is_active-put c object j r new l found same_active ∙ all j in
    elim (Bool-cases (object == k)) [
      | inl at_object ↦
          let same : r ≡ x = ground (arith, at_object, found, at_k) in
          halted k new nobody (ground (arith, at_object, get-put object k new c.readers))
            (ground (arith, same_sink, same, attached)) still
      | inr other ↦
          halted k x nobody (ground (arith, other, at_k, get-put object k new c.readers)) attached
            still
    ]
