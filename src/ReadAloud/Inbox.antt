-- ===== src/ReadAloud/Inbox.antt =====
-- The consumer and a reader that peeks each have an inbox of their own for the latest page: neither
-- takes a page from the other.
use crosspoint_simulator.Prelude.{
  if◌then◌else◌, true, false, not, ◌||◌, ℕ, suc, Bool, List, [], ◌∷◌, Option, none, some, ◌≡◌,
  Bytes, refl, true, false, ◌∙◌, ap, arith, ◌==◌, if-cases, ◌<◌, ◌^◌, ◌+◌, sym, ◌-◌,
}
use crosspoint_simulator.ReadAloud.{
  Rect, Page, Channel, initial, set_wanted, set_peeker_wanted, publish, reset_for_reboot, consume,
  peek,
}

pub data Action : Type 0 where
  want : Bool → Action
  peeker_want : Bool → Action
  publishing : Option Bytes → List Rect → ℕ → Action
  rebooting : Action
  consuming : Action
  peeking : Action

-- What a page says, without its generation.
pub record Content : Type 0 where
  pub utf8 : Bytes
  pub rects : List Rect
  pub cleared : Bool
  pub published_at_ms : ℕ

abbrev pub content : Page → Content
content p = record {
  utf8 = p.utf8;
  rects = p.rects;
  cleared = p.cleared;
  published_at_ms = p.published_at_ms;
}

abbrev pub given : Option Page → List Content → List Content
given none rest = rest
given (some p) rest = content p ∷ rest

-- What the consumer gets in a sequence of actions.
unfoldable pub consumed : Channel → ℕ → List Action → List Content
unfolding set_wanted set_peeker_wanted publish reset_for_reboot consume peek
consumed c seen [] = []
consumed c seen (want b ∷ acts) = consumed (set_wanted c b) seen acts
consumed c seen (peeker_want b ∷ acts) = consumed (set_peeker_wanted c b) seen acts
consumed c seen (publishing utf8 rects now ∷ acts) = consumed (publish c utf8 rects now) seen acts
consumed c seen (rebooting ∷ acts) = consumed (reset_for_reboot c) seen acts
consumed c seen (consuming ∷ acts) = given (consume c).1 (consumed (consume c).0 seen acts)
consumed c seen (peeking ∷ acts) = consumed c (peek c seen).0 acts

-- What a reader that has seen `seen` gets in it.
unfoldable pub peeked : Channel → ℕ → List Action → List Content
unfolding set_wanted set_peeker_wanted publish reset_for_reboot consume peek
peeked c seen [] = []
peeked c seen (want b ∷ acts) = peeked (set_wanted c b) seen acts
peeked c seen (peeker_want b ∷ acts) = peeked (set_peeker_wanted c b) seen acts
peeked c seen (publishing utf8 rects now ∷ acts) = peeked (publish c utf8 rects now) seen acts
peeked c seen (rebooting ∷ acts) = peeked (reset_for_reboot c) seen acts
peeked c seen (consuming ∷ acts) = peeked (consume c).0 seen acts
peeked c seen (peeking ∷ acts) = given (peek c seen).1 (peeked c (peek c seen).0 acts)

-- The specification: an inbox that holds the latest page published since its owner last looked, and
-- nothing after a reboot. `looks` says which actions are the owner's.
abbrev pub letter : Option Bytes → List Rect → ℕ → Content
letter none rects now = record { utf8 = []; rects = []; cleared = true; published_at_ms = now }
letter (some utf8) rects now = record {
  utf8 = utf8;
  rects = rects;
  cleared = false;
  published_at_ms = now;
}

abbrev pub delivered : Option Content → List Content → List Content
delivered none rest = rest
delivered (some p) rest = p ∷ rest

abbrev pub inbox : Bool → Option Content → List Action → List Content
inbox drains box [] = []
inbox drains box (want b ∷ acts) = inbox drains box acts
inbox drains box (peeker_want b ∷ acts) = inbox drains box acts
inbox drains box (publishing utf8 rects now ∷ acts) =
    inbox drains (some (letter utf8 rects now)) acts
inbox drains box (rebooting ∷ acts) = inbox drains none acts
inbox true box (consuming ∷ acts) = delivered box (inbox true none acts)
inbox false box (consuming ∷ acts) = inbox false box acts
inbox true box (peeking ∷ acts) = inbox true box acts
inbox false box (peeking ∷ acts) = delivered box (inbox false none acts)

abbrev pub publishes : List Action → ℕ
publishes [] = 0
publishes (publishing utf8 rects now ∷ acts) = suc (publishes acts)
publishes (_ ∷ acts) = publishes acts

-- What waits for the consumer in a channel.
abbrev waiting : Channel → Option Content
waiting c = if c.has_new then some (content c.page) else none

content-letter :
    (c : Channel) (utf8 : Option Bytes) (rects : List Rect) (now : ℕ)
    → content (publish c utf8 rects now).page ≡ letter utf8 rects now
unfolding publish
content-letter c none rects now = refl
content-letter c (some utf8) rects now = refl

waiting-none : (c : Channel) → c.has_new ≡ false → waiting c ≡ none
waiting-none c h = ap (λ b. if b then some (content c.page) else none) h

waiting-some : (c : Channel) → c.has_new ≡ true → waiting c ≡ some (content c.page)
waiting-some c h = ap (λ b. if b then some (content c.page) else none) h

abbrev Kept : Channel → ℕ → List Action → Channel × Option Page → Type 0
Kept c seen acts s =
    given s.1 (consumed s.0 seen acts) ≡ delivered (waiting c) (inbox true none acts)

consumed-waiting :
    (c : Channel) (seen : ℕ) (acts : List Action)
    → consumed c seen acts ≡ inbox true (waiting c) acts
unfolding consumed set_wanted set_peeker_wanted publish reset_for_reboot consume
consumed-waiting c seen [] = refl
consumed-waiting c seen (want b ∷ acts) = consumed-waiting (set_wanted c b) seen acts
consumed-waiting c seen (peeker_want b ∷ acts) = consumed-waiting (set_peeker_wanted c b) seen acts
consumed-waiting c seen (publishing utf8 rects now ∷ acts) =
    consumed-waiting (publish c utf8 rects now) seen acts
    ∙ ap (λ p. inbox true (some p) acts) (content-letter c utf8 rects now)
consumed-waiting c seen (rebooting ∷ acts) = consumed-waiting (reset_for_reboot c) seen acts
consumed-waiting c seen (consuming ∷ acts) =
    if-cases (Kept c seen acts) (not c.has_new)
      (λ h.
        let w = waiting-none c (ground arith) in
        consumed-waiting c seen acts
        ∙ ap (λ b. inbox true b acts) w
        ∙ sym (ap (λ b. delivered b (inbox true none acts)) w))
      (λ h.
        let w = waiting-some c (ground arith) in
        ap (◌∷◌ (content c.page)) (consumed-waiting (record c { has_new = false }) seen acts)
        ∙ sym (ap (λ b. delivered b (inbox true none acts)) w))
consumed-waiting c seen (peeking ∷ acts) = consumed-waiting c (peek c seen).0 acts

-- The page that a channel holds for a reader.
abbrev unseen : Page → ℕ → Option Content
unseen p seen = if p.generation == 0 || p.generation == seen then none else some (content p)

record Fresh (c : Channel) (seen : ℕ) (acts : List Action) : Type 0 where
  pub reader : seen < c.next_generation
  pub held : c.page.generation < c.next_generation
  pub room : c.next_generation + publishes acts < 2 ^ 32

unseen-none :
    (p : Page) (seen : ℕ)
    → (p.generation == 0 || p.generation == seen) ≡ true
    → unseen p seen ≡ none
unseen-none p seen h = ap (λ b. if b then none else some (content p)) h

unseen-some :
    (p : Page) (seen : ℕ)
    → (p.generation == 0 || p.generation == seen) ≡ false
    → unseen p seen ≡ some (content p)
unseen-some p seen h = ap (λ b. if b then none else some (content p)) h

newer : (g seen : ℕ) → seen < g → (g == 0 || g == seen) ≡ false
newer g seen h = ground arith

seen_now : (g : ℕ) → (g == 0 || g == g) ≡ true
seen_now g = ground arith

abbrev Shown : Channel → ℕ → List Action → ℕ × Option Page → Type 0
Shown c seen acts s =
    given s.1 (peeked c s.0 acts) ≡ delivered (unseen c.page seen) (inbox false none acts)

peeked-unseen :
    (c : Channel) (seen : ℕ) (acts : List Action)
    → Fresh c seen acts
    → peeked c seen acts ≡ inbox false (unseen c.page seen) acts
unfolding peeked set_wanted set_peeker_wanted publish reset_for_reboot consume peek
peeked-unseen c seen [] f = refl
peeked-unseen c seen (want b ∷ acts) f =
    peeked-unseen (set_wanted c b) seen acts
      (record { reader = f.reader; held = f.held; room = f.room })
peeked-unseen c seen (peeker_want b ∷ acts) f =
    peeked-unseen (set_peeker_wanted c b) seen acts
      (record { reader = f.reader; held = f.held; room = f.room })
peeked-unseen c seen (publishing utf8 rects now ∷ acts) f =
    let p = publish c utf8 rects now in
    peeked-unseen p seen acts (record {
      reader = omega (arith, f.reader, f.room);
      held = omega (arith, f.room);
      room = omega (arith, f.room);
    })
    ∙ ap (λ b. inbox false b acts)
        (unseen-some p.page seen (newer _ _ f.reader) ∙ ap some (content-letter c utf8 rects now))
peeked-unseen c seen (rebooting ∷ acts) f =
    peeked-unseen (reset_for_reboot c) seen acts
      (record { reader = f.reader; held = omega (arith, f.reader); room = f.room })
peeked-unseen c seen (consuming ∷ acts) f =
    if-cases
      (λ (s : Channel × Option Page). peeked s.0 seen acts ≡ inbox false (unseen c.page seen) acts)
      (not c.has_new)
      (λ h. peeked-unseen c seen acts (record { reader = f.reader; held = f.held; room = f.room }))
      (λ h.
        peeked-unseen (record c { has_new = false }) seen acts
          (record { reader = f.reader; held = f.held; room = f.room }))
peeked-unseen c seen (peeking ∷ acts) f =
    if-cases (Shown c seen acts) (c.page.generation == 0 || c.page.generation == seen)
      (λ h.
        let w = unseen-none c.page seen h in
        peeked-unseen c seen acts (record { reader = f.reader; held = f.held; room = f.room })
        ∙ ap (λ b. inbox false b acts) w
        ∙ sym (ap (λ b. delivered b (inbox false none acts)) w))
      (λ h.
        let w = unseen-some c.page seen h in
        let now = unseen-none c.page c.page.generation (seen_now c.page.generation) in
        ap (◌∷◌ (content c.page)) (
          peeked-unseen c c.page.generation acts
            (record { reader = f.held; held = f.held; room = f.room })
          ∙ ap (λ b. inbox false b acts) now)
        ∙ sym (ap (λ b. delivered b (inbox false none acts)) w))

-- In any sequence of publishes, clears, reboots, changes of the capture flags, drains and peeks on a
-- fresh channel, with fewer than 2 ^ 32 - 1 publishes, the draining consumer and a peeking reader
-- each get what an inbox of their own would give: the latest page published since they last looked,
-- once, and nothing after a reboot. Neither takes a page from the other.
pub channel-inbox :
    (acts : List Action)
    → publishes acts < 2 ^ 32 - 1
    → (consumed initial 0 acts ≡ inbox true none acts)
      × (peeked initial 0 acts ≡ inbox false none acts)
channel-inbox acts h = (
  consumed-waiting initial 0 acts,
  peeked-unseen initial 0 acts
      (record { reader = omega arith; held = omega arith; room = omega arith }),
)
