-- ===== src/Peers/Flooding.antt =====
-- bin/p2p.cc: how a text goes from peer to peer.
use pttp.Prelude.{
  ℕ, zero, suc, ◌≡◌, refl, sym, ap, ◌∙◌, subst, List, [], ◌∷◌, set, get_elem?, some, true,
  Bool-cases, inl, inr, of_some,
}
use pttp.Bytes.{Bytes, update_at, equal_refl}
use pttp.Maps.{member}
use pttp.Maps.Laws.{member-include}
use pttp.Merkle.{hash_size}
use pttp.Gtd.{Task}
use pttp.Peers.{text, ok, Libs, Connection, Node, add_to, add_to_all}
use pttp.Peers.Serving.{serve_text, answer, serve}
use pttp.Peers.Steps.{served, Run}
use pttp.Peers.Connections.{IsLinked, Step-IsLinked, Run-Grows}

-- The message's third part is the text.
abbrev pub IsText : Libs → List Bytes → Bytes → Type 0
IsText libs msg m =
    (get_elem? msg 2 ≡ some m) × ((line : Bytes) × (libs.messages.read m ≡ some (text line)))

pub replaced :
    (msg : List Bytes) (i : ℕ) (m part : Bytes)
    → get_elem? msg i ≡ some m
    → update_at msg i (λ _. part) ≡ some (set msg i part)
unfolding update_at
replaced [] i m part h = absurd (cc h)
replaced (x ∷ msg) zero m part h = refl
replaced (x ∷ msg) (suc i) m part h = rw (replaced msg i m part h) refl

-- The text goes to `serve_text`, and the sender is told that it is well.
pub serve-text :
    (libs : Libs) (key : Bytes) (msg : List Bytes) (m : Bytes) (n : Node)
    → IsText libs msg m
    → serve libs key msg n ≡ some (set msg 2 (libs.messages.write ok), serve_text libs m n)
unfolding serve answer
serve-text libs key msg m n (there, (line, read)) =
    rw (there, read, replaced msg 2 m (libs.messages.write ok) there) refl

pub marks_seen :
    (libs : Libs) (m : Bytes) (n : Node)
    → member (libs.hasher.digest hash_size m) (serve_text libs m n).seen ≡ true
unfolding serve_text
marks_seen libs m n =
    let hash = libs.hasher.digest hash_size m in
    elim (Bool-cases (member hash n.seen)) [
      | inl e ↦ rw (e, serve_text) e
      | inr e ↦ rw (e, serve_text, member-include hash hash n.seen, equal_refl hash) refl
    ]

ignores_seen :
    (libs : Libs) (m : Bytes) (n : Node)
    → member (libs.hasher.digest hash_size m) n.seen ≡ true
    → serve_text libs m n ≡ n
unfolding serve_text
ignores_seen libs m n e = rw (e, serve_text) refl

pub get_elem?-add_to_all :
    (task : Task) (cons : List Connection) (i : ℕ) (con : Connection)
    → get_elem? cons i ≡ some con
    → get_elem? (add_to_all task cons) i ≡ some (add_to task con)
unfolding add_to_all
get_elem?-add_to_all task [] i con there = cc there
get_elem?-add_to_all task (c ∷ cons) zero con there = ap (λ d. some (add_to task d)) (of_some there)
get_elem?-add_to_all task (c ∷ cons) (suc i) con there = get_elem?-add_to_all task cons i con there

-- Once a node with at most eight connections, to addresses that it knows, has served a text, then
-- whatever its threads do meanwhile, it answers the same bytes, from whatever peer, with OK and is
-- left as it is: the text is passed on no second time.
pub serve_once :
    (libs : Libs) (key key' : Bytes) (msg again msg' : List Bytes) (m : Bytes) (n n' n'' : Node)
    → IsLinked n
    → IsText libs msg m
    → serve libs key msg n ≡ some (msg', n')
    → Run libs n' n''
    → get_elem? again 2 ≡ some m
    → serve libs key' again n'' ≡ some (set again 2 (libs.messages.write ok), n'')
serve_once libs key key' msg again msg' m n n' n'' linked is first run third =
    let linked' = (Step-IsLinked libs n n' (served key msg msg' first) linked).0 in
    let sent = of_some (sym (serve-text libs key msg m n is) ∙ first) in
    let n'_is : serve_text libs m n ≡ n' = ap (λ (p : List Bytes × Node). p.1) sent in
    let marked =
      subst (λ t. member (libs.hasher.digest hash_size m) (Node.seen t) ≡ true) n'_is
        (marks_seen libs m n) in
    let still = (Run-Grows libs n' n'' run linked').1.1 (libs.hasher.digest hash_size m) marked in
    serve-text libs key' again m n'' (third, is.1)
    ∙ ap (λ t. some (set again 2 (libs.messages.write ok), t)) (ignores_seen libs m n'' still)
