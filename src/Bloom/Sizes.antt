-- ===== src/Bloom/Sizes.antt =====
-- `Bloom::set`: the size of the filter.
use pttp.Prelude.{ℕ, ◌≡◌, refl, sym, ap, ◌∙◌, List, [], ◌∷◌, get_elem?, some, of_some, >>=-eq-some}
use pttp.Bytes.{Bytes}
use pttp.Bloom.{ShortHasher, Bloom, new, hash, switch_on, put, put_all}

put-p : (short : ShortHasher) (f g : Bloom) (b : Bytes) → put short f b ≡ some g → g.p ≡ f.p
unfolding put switch_on
put-p short f g b e =
    let was = >>=-eq-some (get_elem? f.hits (hash short f b)) _ e in
    ap Bloom.p (sym (of_some was.2))

pub put_all-p :
    (short : ShortHasher) (f g : Bloom) (bs : List Bytes) → put_all short f bs ≡ some g → g.p ≡ f.p
unfolding put_all
put_all-p short f g [] h = ap Bloom.p (sym (of_some h))
put_all-p short f g (b ∷ bs) h =
    let first = >>=-eq-some (put short f b) _ h in
    put_all-p short first.0 g bs first.2 ∙ put-p short f first.0 b first.1

pub new-p : (p : ℕ) (key : Bytes) → (new p key).p ≡ p
unfolding new
new-p p key = refl
