-- ===== src/Window/Collected/Fields.antt =====
-- Each field of the form gives back what it was filled in with.
use local_dictation.Prelude.{
  zero, suc, ◌<◌, ◌^◌, Bool, true, false, ◌||◌, List, [], ◌∷◌, ◌++◌, if◌then◌else◌, ◌≡◌, refl, sym,
  ap, ◌∙◌, arith, All, append_assoc,
}
use local_dictation.Prelude.Int.{ℤ, pos, negsuc}
use local_dictation.Text.{Text, is_empty, beq}
use local_dictation.Text.Laws.{beq_iff, beq_refl}
use local_dictation.Text.Decimal.{decimal, atoi, atoi-decimal}
use local_dictation.Settings.Config.{Mode, mode_local, mode_remote, is_mode}
use local_dictation.Settings.Backend.{
  Backend, backend_cpu, backend_intel_gpu, backend_apple_gpu, is_backend, normalise, label,
}
use local_dictation.Window.Form.{
  port_text, parse_port, value_or_zero, mode_label, mode_from_label, backend_among, backend_for,
  Device, name_of_id, first_name, refresh_devices, selected_device, is_among, modifier_checks,
  checked_names,
}

-- A number that is not negative and fits 64 bits.
abbrev pub IsPlain : ℤ → Type 0
IsPlain (pos n) = n < 2 ^ 63
IsPlain (negsuc n) = ⊥

pub parse_port-port_text : (n : ℤ) → IsPlain n → parse_port (port_text n) ≡ n
unfolding atoi
parse_port-port_text (pos zero) h = refl
parse_port-port_text (pos (suc n)) h =
    let shown : port_text (pos (suc n)) ≡ decimal (pos (suc n)) = ground arith in
    ap parse_port shown ∙ ap value_or_zero (atoi-decimal (suc n) h)
parse_port-port_text (negsuc n) h = absurd h

pub mode-read : (m : Mode) → is_mode m ≡ true → mode_from_label (mode_label m) ≡ m
unfolding is_mode beq
mode-read m h = known (beq m mode_local) (beq m mode_remote) refl refl h
  where
    read :
        (k : Mode) → m ≡ k → mode_from_label (mode_label k) ≡ k → mode_from_label (mode_label m) ≡ m
    read k e f = ap (λ x. mode_from_label (mode_label x)) e ∙ f ∙ sym e

    known :
        (a b : Bool)
        → beq m mode_local ≡ a
        → beq m mode_remote ≡ b
        → (a || b) ≡ true
        → mode_from_label (mode_label m) ≡ m
    known true b e f g = read mode_local ((beq_iff m mode_local).0 e) refl
    known false true e f g = read mode_remote ((beq_iff m mode_remote).0 f) refl
    known false false e f g = absurd (ground (arith, g))

pub backend-read :
    (b : Backend) → is_backend b ≡ true → backend_for (label (normalise b)) ≡ normalise b
unfolding is_backend backend_among label normalise beq is_empty
backend-read b h =
    known (beq n backend_cpu) (beq n backend_intel_gpu) (beq n backend_apple_gpu) refl refl refl h
  where
    n : Backend
    n = normalise b

    read : (k : Backend) → n ≡ k → backend_for (label k) ≡ k → backend_for (label n) ≡ n
    read k e f = ap (λ x. backend_for (label x)) e ∙ f ∙ sym e

    known :
        (x y z : Bool)
        → beq n backend_cpu ≡ x
        → beq n backend_intel_gpu ≡ y
        → beq n backend_apple_gpu ≡ z
        → (x || y || z) ≡ true
        → backend_for (label n) ≡ n
    known true y z e f g k = read backend_cpu ((beq_iff n backend_cpu).0 e) refl
    known false true z e f g k = read backend_intel_gpu ((beq_iff n backend_intel_gpu).0 f) refl
    known false false true e f g k = read backend_apple_gpu ((beq_iff n backend_apple_gpu).0 g) refl
    known false false false e f g k = absurd (ground (arith, k))

-- No name of the list is there twice.
abbrev pub Distinct : List Text → Type 0
Distinct [] = Unit
Distinct (n ∷ ns) = (is_among n ns ≡ false) × Distinct ns

-- Some of the names of a list, in its order.
pub data Picked : List Text → List Text → Type 0 where
  none_left : Picked [] []
  pick : (ms ns : List Text) (n : Text) → Picked ms ns → Picked (n ∷ ms) (n ∷ ns)
  pass : (ms ns : List Text) (n : Text) → Picked ms ns → Picked ms (n ∷ ns)

is_among-append :
    (t : Text) (xs ys : List Text) → is_among t (xs ++ ys) ≡ (is_among t xs || is_among t ys)
is_among-append t [] ys = refl
is_among-append t (x ∷ xs) ys = ground (arith, is_among-append t xs ys)

Picked-absent :
    (t : Text) (ms ns : List Text) → Picked ms ns → is_among t ns ≡ false → is_among t ms ≡ false
Picked-absent t ms ns none_left h = refl
Picked-absent t ms ns (pick ms' ns' n p) h =
    ground (arith, h, Picked-absent t ms' ns' p (ground (arith, h)))
Picked-absent t ms ns (pass ms' ns' n p) h = Picked-absent t ms ns' p (ground (arith, h))

-- Every name of the list is absent from the names before.
abbrev Apart : List Text → List Text → Type 0
Apart front = All (λ n. is_among n front ≡ false)

beq_swap : (s t : Text) → beq s t ≡ false → beq t s ≡ false
beq_swap s t h = chosen (beq t s) refl
  where
    chosen : (b : Bool) → beq t s ≡ b → b ≡ false
    chosen false e = refl
    chosen true e = absurd (ground (arith, h, (beq_iff s t).1 (sym ((beq_iff t s).0 e))))

Apart-add :
    (front : List Text) (n : Text) (ns : List Text)
    → is_among n ns ≡ false
    → Apart front ns
    → Apart (front ++ n ∷ []) ns
Apart-add front n [] h a = tt
Apart-add front n (x ∷ xs) h (ax, a) = (
  is_among-append x front (n ∷ []) ∙ ground (arith, ax, beq_swap x n (ground (arith, h))),
  Apart-add front n xs (ground (arith, h)) a,
)

checked-front :
    (front ms ns : List Text)
    → Picked ms ns
    → Distinct ns
    → Apart front ns
    → checked_names (modifier_checks (front ++ ms) ns) ≡ ms
unfolding checked_names modifier_checks
checked-front front ms ns none_left d a = refl
checked-front front ms ns (pick ms' ns' n p) (absent, d) (an, a) =
    let on : is_among n (front ++ n ∷ ms') ≡ true =
      is_among-append n front (n ∷ ms') ∙ ground (arith, an, beq_refl n) in
    let later = checked-front (front ++ n ∷ []) ms' ns' p d (Apart-add front n ns' absent a) in
    let rest = λ (all : List Text). checked_names (modifier_checks all ns') in
    ap (λ (b : Bool). if b then n ∷ rest (front ++ n ∷ ms') else rest (front ++ n ∷ ms')) on
    ∙ ap (◌∷◌ n) (ap rest (sym (append_assoc front (n ∷ []) ms')) ∙ later)
checked-front front ms ns (pass ms' ns' n p) (absent, d) (an, a) =
    let off : is_among n (front ++ ms') ≡ false =
      is_among-append n front ms' ∙ ground (arith, an, Picked-absent n ms' ns' p absent) in
    let rest = λ (all : List Text). checked_names (modifier_checks all ns') in
    ap (λ (b : Bool). if b then n ∷ rest (front ++ ms') else rest (front ++ ms')) off
    ∙ checked-front front ms' ns' p d a

Apart-nothing : (ns : List Text) → Apart [] ns
Apart-nothing [] = tt
Apart-nothing (n ∷ ns) = (refl, Apart-nothing ns)

pub modifiers-read :
    (ms available : List Text)
    → Distinct available
    → Picked ms available
    → checked_names (modifier_checks ms available) ≡ ms
modifiers-read ms available d p = checked-front [] ms available p d (Apart-nothing available)

-- A device with a name, before every other one of its name and after every other one of its identifier.
pub record Offered (d : Device) (devices : List Device) : Type 0 where
  pub before : List Device
  pub after : List Device
  pub among : devices ≡ before ++ d ∷ after
  pub named : is_empty d.name ≡ false
  pub first_of_name : All (λ e. beq e.name d.name ≡ false) before
  pub last_of_id : All (λ e. beq e.id d.id ≡ false) after

name_of_id-absent :
    (id : Text) (ds : List Device) (name : Text)
    → All (λ e. beq e.id id ≡ false) ds
    → name_of_id id ds name ≡ name
unfolding name_of_id
name_of_id-absent id [] name h = refl
name_of_id-absent id (d ∷ ds) name (hd, h) =
    ap (λ (b : Bool). name_of_id id ds (if b then d.name else name)) hd
    ∙ name_of_id-absent id ds name h

name_of_id-found :
    (d : Device) (before after : List Device) (name : Text)
    → All (λ e. beq e.id d.id ≡ false) after
    → name_of_id d.id (before ++ d ∷ after) name ≡ d.name
unfolding name_of_id
name_of_id-found d [] after name h =
    ap (λ (b : Bool). name_of_id d.id after (if b then d.name else name)) (beq_refl d.id)
    ∙ name_of_id-absent d.id after d.name h
name_of_id-found d (e ∷ before) after name h =
    name_of_id-found d before after (if beq e.id d.id then e.name else name) h

selected-found :
    (d : Device) (before after : List Device)
    → All (λ e. beq e.name d.name ≡ false) before
    → selected_device d.name (before ++ d ∷ after) ≡ d
unfolding selected_device
selected-found d [] after h =
    ap (λ (b : Bool). if b then d else selected_device d.name after) (beq_refl d.name)
selected-found d (e ∷ before) after (he, h) =
    ap (λ (b : Bool). if b then e else selected_device d.name (before ++ d ∷ after)) he
    ∙ selected-found d before after h

pub device-read :
    (d : Device) (devices : List Device)
    → Offered d devices
    → selected_device (refresh_devices d.id devices) devices ≡ d
unfolding refresh_devices
device-read d devices o =
    let name : name_of_id d.id devices [] ≡ d.name =
      ap (λ ds. name_of_id d.id ds []) o.among
      ∙ name_of_id-found d o.before o.after [] o.last_of_id in
    let shown : refresh_devices d.id devices ≡ d.name =
      ap (λ (n : Text). if is_empty n then first_name devices else n) name
      ∙ ap (λ (b : Bool). if b then first_name devices else d.name) o.named in
    ap (λ n. selected_device n devices) shown
    ∙ ap (selected_device d.name) o.among
    ∙ selected-found d o.before o.after o.first_of_name
