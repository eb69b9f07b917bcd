-- ===== src/Packets/Subscriptions.antt =====
-- Who is subscribed behind `handleChannelSubscribe` and `handleChannelUnsubscribe` of
-- src/core/federationPacketHandler.js.
use metrice.Base.{
  ℕ, Bool, true, false, not, ◌&&◌, ◌||◌, ◌≡◌, refl, sym, ap, ◌∙◌, inl, inr, arith, Option, none,
  some, List, [], ◌∷◌, ◌++◌, Str, str_eq, str_eq_iff, str_eq_inst, includes, length, ◌==◌,
  if◌then◌else◌, if-false, if-true, Bool-cases,
}
use metrice.Federation.{Config, Engine, note_peer}
use metrice.Federation.Packet.{Consequence}
use metrice.JsMap
use metrice.JsMap.Laws.{get-set, get-eq_none}
use metrice.Packets.{Source, handle_channel_subscribe, handle_channel_unsubscribe, subscribers_of}
use metrice.Rendezvous.Edge.{add_text, remove_text}
use metrice.Rendezvous.Edge.Heartbeat.{Unique, includes-remove_text, includes-remove_self}

includes-append :
    (texts : List Str) (t s : Str) → includes (texts ++ t ∷ []) s ≡ (includes texts s || str_eq t s)
unfolding includes
includes-append [] t s = ground arith
includes-append (u ∷ texts) t s = ground (arith, includes-append texts t s)

-- A node is in the set behind an `add` exactly if it was in it or is the one that is added.
includes-add_text :
    (t s : Str) (texts : List Str)
    → includes (add_text t texts) s ≡ (includes texts s || str_eq t s)
unfolding add_text
includes-add_text t s texts = elim (Bool-cases (includes texts t)) [
  | inl there ↦ elim (Bool-cases (str_eq t s)) [
    | inl same ↦
        let found : includes texts s ≡ true =
          ap (includes texts) (sym ((str_eq_iff t s).0 same)) ∙ there in
        rw (there, found) refl
    | inr other ↦ rw (there, other) (ground arith)
  ]
  | inr absent ↦ rw (absent) (includes-append texts t s)
]

subscribers-set :
    (name other : Str) (nodes : List Str) (e : Engine)
    → subscribers_of other (record e { subscribers = JsMap.set name nodes e.subscribers })
      ≡ (if str_eq name other then nodes else subscribers_of other e)
unfolding subscribers_of
subscribers-set name other nodes e =
    ap (λ (o : Option (List Str)). elim o [ none ↦ [] | some found ↦ found ])
      (get-set name other nodes e.subscribers)
    ∙ elim (Bool-cases (str_eq name other)) [
      | inl same ↦ rw (same) refl
      | inr apart ↦ rw (apart) refl
    ]

added :
    (name node other n : Str) (e : Engine)
    → includes
        (if str_eq name other
          then add_text node (subscribers_of name e)
          else subscribers_of other e)
        n
      ≡ (includes (subscribers_of other e) n || (str_eq name other && str_eq node n))
added name node other n e = elim (Bool-cases (str_eq name other)) [
  | inl same ↦
      let key = (str_eq_iff name other).0 same in
      rw (same) (
        includes-add_text node n (subscribers_of name e)
        ∙ ap (λ t. includes (subscribers_of t e) n || str_eq node n) key)
  | inr apart ↦ rw (apart) (ground arith)
]

removed :
    (name node other n : Str) (e : Engine)
    → Unique (subscribers_of name e)
    → includes
        (if str_eq name other
          then remove_text node (subscribers_of name e)
          else subscribers_of other e)
        n
      ≡ (includes (subscribers_of other e) n && not (str_eq name other && str_eq node n))
removed name node other n e unique = elim (Bool-cases (str_eq name other)) [
  | inl same ↦
      let key = (str_eq_iff name other).0 same in
      let moved = ap (λ t. includes (subscribers_of t e) n && not (str_eq node n)) key in
      rw (same) (elim (Bool-cases (str_eq node n)) [
        | inl gone ↦
            ap (includes (remove_text node (subscribers_of name e)))
              (sym ((str_eq_iff node n).0 gone))
            ∙ (includes-remove_self node (subscribers_of name e) unique ∙ rw (gone) (ground arith))
        | inr stays ↦
            includes-remove_text node n (subscribers_of name e) stays
            ∙ (rw (stays) (ground arith) ∙ moved)
      ])
  | inr apart ↦ rw (apart) (ground arith)
]

-- Behind a subscription, a node is subscribed to a channel exactly if it was before, or if it is the subscriber and the channel the one it subscribed to. The names are not empty.
pub subscribed :
    (cfg : Config) (now : ℕ) (from : Source) (name node other n : Str) (e : Engine)
    → ((length name == 0) || (length node == 0)) ≡ false
    → includes (subscribers_of other (handle_channel_subscribe cfg now from name node e).0) n
      ≡ (includes (subscribers_of other e) n || (str_eq name other && str_eq node n))
unfolding handle_channel_subscribe note_peer subscribers_of
subscribed cfg now from name node other n e named =
    ap (λ (r : Engine × List Consequence). includes (subscribers_of other r.0) n) (if-false _ named)
    ∙ (ap (λ l. includes l n) (subscribers-set name other (add_text node (subscribers_of name e)) e)
        ∙ added name node other n e)

opened : (a b c : Bool) → (a || b) ≡ false → c ≡ true → (a || (b || not c)) ≡ false
opened a b c h k = ground arith

shut_channel : (a b c : Bool) → c ≡ false → (a || (b || not c)) ≡ true
shut_channel a b c h = ground arith

nobody :
    (name node other n : Str) (e : Engine)
    → JsMap.has name e.subscribers ≡ false
    → includes (subscribers_of other e) n
      ≡ (includes (subscribers_of other e) n && not (str_eq name other && str_eq node n))
unfolding subscribers_of includes
nobody name node other n e closed = elim (Bool-cases (str_eq name other)) [
  | inl same ↦
      let none_there : JsMap.get other e.subscribers ≡ none =
        ap (λ t. JsMap.get t e.subscribers) (sym ((str_eq_iff name other).0 same))
        ∙ get-eq_none name e.subscribers closed in
      rw (none_there, subscribers_of, includes) refl
  | inr apart ↦ rw (apart) (ground arith)
]

-- The subscription is taken back: behind `unsubscribe` a node is subscribed to a channel exactly if it was before
-- and is not the subscriber of the channel that is named. The names are not empty, and no node stands twice in the set.
pub unsubscribed :
    (cfg : Config) (from : Source) (name node other n : Str) (e : Engine)
    → ((length name == 0) || (length node == 0)) ≡ false
    → Unique (subscribers_of name e)
    → includes (subscribers_of other (handle_channel_unsubscribe cfg from name node e).0) n
      ≡ (includes (subscribers_of other e) n && not (str_eq name other && str_eq node n))
unfolding handle_channel_unsubscribe
unsubscribed cfg from name node other n e named unique =
    elim (Bool-cases (JsMap.has name e.subscribers)) [
      | inl known ↦
          ap (λ (r : Engine × List Consequence). includes (subscribers_of other r.0) n)
            (if-false _ (opened (length name == 0) (length node == 0) _ named known))
          ∙ (ap (λ l. includes l n)
                (subscribers-set name other (remove_text node (subscribers_of name e)) e)
              ∙ removed name node other n e unique)
      | inr closed ↦
          ap (λ (r : Engine × List Consequence). includes (subscribers_of other r.0) n)
            (if-true _ (shut_channel (length name == 0) (length node == 0) _ closed))
          ∙ nobody name node other n e closed
    ]
