-- ===== src/Backend/Folder/Asked.antt =====
-- The requests and the answers of the fast listing (the loop of `list_by_properties` of
-- crates/mtpfs/src/backend.rs).
use bsdroid.Base.{Result, ok, map_err, map_err-ok}
use bsdroid.Base.{ℕ, ◌≡◌, ap, ◌∙◌, subst, List, [], ◌∷◌, ◌++◌}
use bsdroid.Base.Action.{Action, lift, pure, ◌>>=◌, >>=-ok, lift-ok, pure-ok}
use bsdroid.Ptp.PropList.{PropEntry, parse_object_prop_list}
use bsdroid.Ptp.Device.{get_object_prop_list}
use bsdroid.Session.{Transport}
use bsdroid.Backend.{parse, Mtp}
use bsdroid.Backend.Calls.{operation}
use bsdroid.Backend.Folder.{depth_children, ask_each}

-- The device was asked for one property of the objects of a folder after the other, and each answer was read: the elements of the answers, one answer behind the other.
pub data Asked {D : Type 0} (tr : Transport D) (folder : ℕ)
    : List ℕ → Mtp D → Mtp D → List PropEntry → Type 0 where
  no_property : (m : Mtp D) → Asked tr folder [] m m []
  one_property :
      (code : ℕ) (codes bytes : List ℕ) (m next end : Mtp D) (es rest : List PropEntry)
      → operation tr "GetObjectPropList" get_object_prop_list
          (folder ∷ 0 ∷ code ∷ 0 ∷ depth_children ∷ [])
          m
        ≡ (ok bytes, next)
      → parse_object_prop_list bytes ≡ ok es
      → Asked tr folder codes next end rest
      → Asked tr folder (code ∷ codes) m end (es ++ rest)

-- What one round of the loop over the properties did.
ask_and_read-ok :
    {E S A B C R : Type 0} (ask : Action E S A) (read : A → Result E B) (others : Action E S C)
    (f : B → C → R) (s t : S) (r : R)
    → (ask >>= λ a. lift (read a) >>= λ b. others >>= λ c. pure (f b c)) s ≡ (ok r, t)
    → (a : A) × (u : S) × (b : B) × (c : C) × (ask s ≡ (ok a, u))
      × (read a ≡ ok b)
      × (others u ≡ (ok c, t))
      × (f b c ≡ r)
ask_and_read-ok {E} {S} {A} {B} {C} {R} ask read others f s t r h =
    let more : B → Action E S R = λ b. others >>= λ c. pure (f b c) in
    let (a, u, asked, h1) = >>=-ok ask (λ x. lift (read x) >>= more) s t r h in
    let (b, v, is_read, h2) = >>=-ok (lift (read a)) more u t r h1 in
    let (read_b, uv) = lift-ok (read a) u v b is_read in
    let (c, w, others_c, h3) = >>=-ok others (λ x. pure (f b x)) v t r h2 in
    let (is_r, wt) = pure-ok (f b c) r w t h3 in
    (a, u, b, c, asked, read_b, ap others uv ∙ others_c ∙ ap (λ x. (ok c, x)) wt, is_r)

pub ask_each-Asked :
    {D : Type 0} (tr : Transport D) (folder : ℕ) (codes : List ℕ) (m end : Mtp D)
    (props : List PropEntry)
    → ask_each tr folder codes m ≡ (ok props, end)
    → Asked tr folder codes m end props
unfolding ask_each
ask_each-Asked tr folder [] m end props h =
    let (none_asked, same_state) = pure-ok [] props m end h in
    subst (λ x. Asked tr folder [] m x props) same_state
      (subst (Asked tr folder [] m m) none_asked (no_property m))
ask_each-Asked tr folder (code ∷ codes) m end props h =
    let (bytes, next, es, rest, asked, parsed, others, together) =
      ask_and_read-ok
        (operation tr "GetObjectPropList" get_object_prop_list
          (folder ∷ 0 ∷ code ∷ 0 ∷ depth_children ∷ []))
        (λ bytes. map_err parse (parse_object_prop_list bytes)) (ask_each tr folder codes)
        (λ es rest. es ++ rest) m end props h in
    subst (Asked tr folder (code ∷ codes) m end) together (
      one_property code codes bytes m next end es rest asked
        (map_err-ok parse (parse_object_prop_list bytes) es parsed)
        (ask_each-Asked tr folder codes next end rest others))
