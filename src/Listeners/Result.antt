-- ===== src/Listeners/Result.antt =====
-- The ports that are opened, and that every listener is accounted for.
use contour.Prelude.{
  ◌≡◌, ◌≢◌, refl, sym, ap, ◌∙◌, inl, inr, true, false, Option, none, some, List, [], ◌∷◌, ◌++◌,
  append_assoc, append-nil, arith, text_eq, text_eq_iff, any, All, All-snoc, All-imp, Pairs,
  Pairs-snoc, Bool-cases,
}
use mathlib.Core.List.{Memᴰ}
use native.Mathlib.Decide.{ℕ_discrete}
use contour.Listeners.{
  Listener, ListenerPort, ListenerCondition, ValidateListenersResult, to_container_port,
  envoy_protocol, envoy_listener_name, HostnameRules, check_listener, add_listener, settle,
  validate_from, validate_listeners,
}
use contour.Listeners.Laws.{IsCompatible, check_listener_iff}

-- The port that is opened for a listener.
abbrev pub port_of : Listener → ListenerPort
port_of l = record {
  name = envoy_listener_name l;
  port = l.port;
  container_port = to_container_port l.port;
  protocol = envoy_protocol l.protocol;
}

-- A port was opened for one of the listeners.
abbrev pub IsOpenedFor : List Listener → ListenerPort → Type 0
IsOpenedFor listeners p = (o : Listener) × Memᴰ o listeners × (p ≡ port_of o)

abbrev pub Differ : ListenerPort → ListenerPort → Type 0
Differ p q = p.container_port ≢ q.container_port

mem-append_left : (o : Listener) (xs ys : List Listener) → Memᴰ o xs → Memᴰ o (xs ++ ys)
mem-append_left o [] ys m = elim m [ ]
mem-append_left o (x ∷ xs) ys (Memᴰ.head e) = Memᴰ.head e
mem-append_left o (x ∷ xs) ys (Memᴰ.tail m) = Memᴰ.tail (mem-append_left o xs ys m)

mem-append_last : (l : Listener) (xs : List Listener) → Memᴰ l (xs ++ l ∷ [])
mem-append_last l [] = Memᴰ.head refl
mem-append_last l (x ∷ xs) = Memᴰ.tail (mem-append_last l xs)

All-mem :
    (l o : Listener) (xs : List Listener) → All (IsCompatible l) xs → Memᴰ o xs → IsCompatible l o
All-mem l o [] h m = elim m [ ]
All-mem l o (x ∷ xs) h (Memᴰ.head e) = rw e h.0
All-mem l o (x ∷ xs) h (Memᴰ.tail m) = All-mem l o xs h.1 m

-- Compatible listeners with one port share an Envoy listener's name.
envoy_listener_name-eq :
    (l o : Listener)
    → envoy_protocol l.protocol ≡ envoy_protocol o.protocol
    → l.port ≡ o.port
    → envoy_listener_name l ≡ envoy_listener_name o
unfolding envoy_listener_name
envoy_listener_name-eq l o p q = rw (p, q)

-- A port of another name has another container port.
port-Differ :
    (l o : Listener)
    → IsCompatible l o
    → text_eq (envoy_listener_name o) (envoy_listener_name l) ≡ false
    → Differ (port_of o) (port_of l)
port-Differ l o c apart same = elim (ℕ_discrete l.port o.port) [
  | yes e ↦
      let name = sym (envoy_listener_name-eq l o (c.protocols e) e) in
      let r : false ≡ true = sym apart ∙ (text_eq_iff _ _).1 name in cc
  | no differ ↦ c.ports differ (sym same)
]

-- What holds of the result after the listeners `seen`.
record IsOpen (seen : List Listener) (r : ValidateListenersResult) : Type 0 where
  opened : All (IsOpenedFor seen) r.ports
  distinct : Pairs Differ r.ports

IsOpenedFor-append :
    (seen : List Listener) (l : Listener) (p : ListenerPort)
    → IsOpenedFor seen p
    → IsOpenedFor (seen ++ l ∷ []) p
IsOpenedFor-append seen l p (o, m, e) = (o, mem-append_left o seen (l ∷ []) m, e)

ports-Differ :
    (seen : List Listener) (l : Listener) (ports : List ListenerPort)
    → All (IsCompatible l) seen
    → All (IsOpenedFor seen) ports
    → any (λ (p : ListenerPort). text_eq p.name (envoy_listener_name l)) ports ≡ false
    → All (λ p. Differ p (port_of l)) ports
ports-Differ seen l [] c h n = tt
ports-Differ seen l (p ∷ ports) c ((o, m, e), h) n =
    let apart : text_eq p.name (envoy_listener_name l) ≡ false = ground arith in
    let compatible = All-mem l o seen c m in
    let first : Differ p (port_of l) =
      rw e (port-Differ l o compatible (rw (ap (λ (q : ListenerPort). q.name) e) at apart)) in
    (first, ports-Differ seen l ports c h (ground arith))

add_listener-IsOpen :
    (seen : List Listener) (l : Listener) (r : ValidateListenersResult)
    → All (IsCompatible l) seen
    → IsOpen seen r
    → IsOpen (seen ++ l ∷ []) (add_listener l r)
unfolding add_listener
add_listener-IsOpen seen l r c v =
    let known = any (λ (p : ListenerPort). text_eq p.name (envoy_listener_name l)) r.ports in
    let grown = All-imp r.ports (IsOpenedFor-append seen l) v.opened in
    elim (Bool-cases known) [
      | inl old ↦ rw (old, add_listener) (record { opened = grown; distinct = v.distinct })
      | inr new ↦
          rw (new, add_listener)
            (record {
              opened =
                  All-snoc (IsOpenedFor (seen ++ l ∷ [])) r.ports (port_of l) grown
                    (l, mem-append_last l seen, refl);
              distinct =
                  Pairs-snoc Differ r.ports (port_of l) v.distinct
                    (ports-Differ seen l r.ports c v.opened new);
            })
    ]

module _ (rules : HostnameRules) where
  settle-IsOpen :
      (seen : List Listener) (l : Listener) (r : ValidateListenersResult)
      (found : Option ListenerCondition)
      → check_listener rules seen l ≡ found
      → IsOpen seen r
      → IsOpen (seen ++ l ∷ []) (settle l found r)
  unfolding settle
  settle-IsOpen seen l r none e v =
      add_listener-IsOpen seen l r ((check_listener_iff rules seen l).0 e).2 v
  settle-IsOpen seen l r (some c) e v = record {
    opened = All-imp r.ports (IsOpenedFor-append seen l) v.opened;
    distinct = v.distinct;
  }

  validate_from-IsOpen :
      (seen ls : List Listener) (r : ValidateListenersResult)
      → IsOpen seen r
      → IsOpen (seen ++ ls) (validate_from rules seen ls r)
  unfolding validate_from
  validate_from-IsOpen seen [] r v = rw (append-nil seen) v
  validate_from-IsOpen seen (l ∷ ls) r v =
      let found = check_listener rules seen l in
      rw (append_assoc seen (l ∷ []) ls) at (
        validate_from-IsOpen (seen ++ l ∷ []) ls (settle l found r)
          (settle-IsOpen seen l r found refl v))

  -- However the listeners are chosen, each port that is opened is the one of some listener, and no two
  -- have one container port.
  pub validate_listeners_distinct :
      (listeners : List Listener)
      → let ports = (validate_listeners rules listeners).ports in
        All (IsOpenedFor listeners) ports × Pairs Differ ports
  unfolding validate_listeners
  validate_listeners_distinct listeners =
      let v = validate_from-IsOpen [] listeners _ (record { opened = tt; distinct = tt }) in
      (v.opened, v.distinct)
