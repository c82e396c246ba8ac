-- ===== src/Content/Disposition/Build.antt =====
-- smtp_mime_disposition_new_with_data, which makes a disposition of values, and
-- smtp_mime_disposition_single_fields_init, which notes its values in a structure; src/disposition.c.
use mathlib.Core.List.{append-nil}
use smtp_nel_filter.Prelude.{
  ℕ, ◌≡◌, refl, Bool, true, false, ◌==◌, if◌then◌else◌, Option, none, some, List, [], ◌∷◌, ◌++◌,
  Bytes, Bool-cases, inl, inr,
}
use smtp_nel_filter.Mime.Lists.Grammar.{IsClist}
use smtp_nel_filter.Content.Disposition.{
  DispositionType, DispositionParm, filename_parm, creation_date_parm, modification_date_parm,
  read_date_parm, size_parm, parameter_parm, Disposition, DispositionEngine, get_attachment_file,
}

-- `(size_t) - 1`
abbrev pub no_size : ℕ
no_size = 18446744073709551615

-- `goto free_list`, where the structure or the cell of the list is refused.
unfoldable pub add_parm :
    DispositionEngine → DispositionParm → List DispositionParm → Option (List DispositionParm)
add_parm engine parm list = if engine.alloc_dsp_parm then engine.parms.append list parm else none

unfoldable pub add_given :
    DispositionEngine
    → (Bytes → DispositionParm)
    → Option Bytes
    → List DispositionParm
    → Option (List DispositionParm)
add_given engine parm none list = some list
add_given engine parm (some value) list = add_parm engine (parm value) list

unfoldable pub add_size :
    DispositionEngine → ℕ → List DispositionParm → Option (List DispositionParm)
add_size engine size list =
    if size == no_size then some list else add_parm engine (size_parm size) list

infixl 5 ◌>>=◌
abbrev ◌>>=◌ : {A B : Type 0} → Option A → (A → Option B) → Option B
none >>= f = none
some a >>= f = f a

unfoldable pub disposition_new :
    DispositionEngine → DispositionType → List DispositionParm → Option Disposition
disposition_new engine type parms =
    if engine.alloc_disposition
    then some (record { dsp_type = type; dsp_parms = parms; err_cnt = 0 })
    else none

-- `type` is a number in the code, so that an extension has no text there.
unfoldable pub disposition_new_with_data :
    DispositionEngine
    → DispositionType
    → Option Bytes
    → Option Bytes
    → Option Bytes
    → Option Bytes
    → ℕ
    → Option Disposition
disposition_new_with_data engine type filename creation_date modification_date read_date size =
    if engine.alloc_dsp_type
    then (do
      list ← engine.parms.new
      with_filename ← add_given engine filename_parm filename list
      with_creation ← add_given engine creation_date_parm creation_date with_filename
      with_modification ← add_given engine modification_date_parm modification_date with_creation
      with_read ← add_given engine read_date_parm read_date with_modification
      parms ← add_size engine size with_read
      disposition_new engine type parms)
    else none

unfoldable pub disposition_new_filename :
    DispositionEngine → DispositionType → Bytes → Option Disposition
disposition_new_filename engine type filename =
    disposition_new_with_data engine type (some filename) none none none no_size

-- The fields of struct smtp_mime_single_fields that are noted.
pub record SingleFields : Type 0 where
  pub fld_disposition : Option Disposition
  pub fld_disposition_filename : Option Bytes
  pub fld_disposition_creation_date : Option Bytes
  pub fld_disposition_modification_date : Option Bytes
  pub fld_disposition_read_date : Option Bytes
  pub fld_disposition_size : ℕ

-- The `switch` in the loop.
unfoldable pub note_parm : SingleFields → DispositionParm → SingleFields
note_parm fields (filename_parm value) = record fields { fld_disposition_filename = some value }
note_parm fields (creation_date_parm value) = record fields {
  fld_disposition_creation_date = some value;
}
note_parm fields (modification_date_parm value) = record fields {
  fld_disposition_modification_date = some value;
}
note_parm fields (read_date_parm value) = record fields { fld_disposition_read_date = some value }
note_parm fields (size_parm value) = record fields { fld_disposition_size = value }
note_parm fields (parameter_parm value) = fields

unfoldable pub note_parms : SingleFields → List DispositionParm → SingleFields
note_parms fields [] = fields
note_parms fields (parm ∷ parms) = note_parms (note_parm fields parm) parms

unfoldable pub disposition_single_fields_init : SingleFields → Disposition → SingleFields
disposition_single_fields_init fields disposition =
    note_parms (record fields { fld_disposition = some disposition }) disposition.dsp_parms

-- An engine that refuses nothing.
pub record IsGiving (engine : DispositionEngine) : Type 0 where
  pub gives_type : engine.alloc_dsp_type ≡ true
  pub gives_parm : engine.alloc_dsp_parm ≡ true
  pub gives_disposition : engine.alloc_disposition ≡ true
  pub lists : IsClist engine.parms

-- What is added for a value.
abbrev given : (Bytes → DispositionParm) → Option Bytes → List DispositionParm
given parm none = []
given parm (some value) = parm value ∷ []

abbrev given_size : ℕ → List DispositionParm
given_size size = if size == no_size then [] else size_parm size ∷ []

-- The value that was given, or the one before.
abbrev pub or_before : Option Bytes → Option Bytes → Option Bytes
or_before none before = before
or_before (some value) before = some value

add_parm-last :
    (engine : DispositionEngine) (parm : DispositionParm) (list : List DispositionParm)
    → IsGiving engine
    → add_parm engine parm list ≡ some (list ++ parm ∷ [])
unfolding add_parm
add_parm-last engine parm list law = rw law.gives_parm (law.lists.append-last list parm)

add_given-given :
    (engine : DispositionEngine) (parm : Bytes → DispositionParm) (o : Option Bytes)
    (list : List DispositionParm)
    → IsGiving engine
    → add_given engine parm o list ≡ some (list ++ given parm o)
unfolding add_given
add_given-given engine parm none list law = rw (append-nil list)
add_given-given engine parm (some value) list law = add_parm-last engine (parm value) list law

add_size-given :
    (engine : DispositionEngine) (size : ℕ) (list : List DispositionParm)
    → IsGiving engine
    → add_size engine size list ≡ some (list ++ given_size size)
unfolding add_size
add_size-given engine size list law = elim (Bool-cases (size == no_size)) [
  | inl e ↦ rw (e, append-nil list)
  | inr e ↦ rw e (add_parm-last engine (size_parm size) list law)
]

note_parms-append :
    (fields : SingleFields) (xs ys : List DispositionParm)
    → note_parms fields (xs ++ ys) ≡ note_parms (note_parms fields xs) ys
unfolding note_parms
note_parms-append fields [] ys = refl
note_parms-append fields (x ∷ xs) ys = note_parms-append (note_parm fields x) xs ys

-- All parameters, in the order in which they are added.
abbrev all_given :
    Option Bytes
    → Option Bytes
    → Option Bytes
    → Option Bytes
    → List DispositionParm
    → List DispositionParm
all_given filename creation modification read sizes =
    (((given filename_parm filename ++ given creation_date_parm creation)
        ++ given modification_date_parm modification)
      ++ given read_date_parm read)
    ++ sizes

size_only :
    (size : ℕ) (b : Bool) → get_attachment_file (if b then [] else size_parm size ∷ []) ≡ none
unfolding get_attachment_file
size_only size true = refl
size_only size false = refl

dates :
    (creation modification read : Option Bytes) (size : ℕ) (b : Bool)
    → get_attachment_file
        (all_given none creation modification read (if b then [] else size_parm size ∷ []))
      ≡ none
unfolding get_attachment_file
dates none none none size b = size_only size b
dates none none (some _) size b = size_only size b
dates none (some _) none size b = size_only size b
dates none (some _) (some _) size b = size_only size b
dates (some _) none none size b = size_only size b
dates (some _) none (some _) size b = size_only size b
dates (some _) (some _) none size b = size_only size b
dates (some _) (some _) (some _) size b = size_only size b

attachment-given :
    (filename creation modification read : Option Bytes) (size : ℕ)
    → get_attachment_file (all_given filename creation modification read (given_size size))
      ≡ filename
unfolding get_attachment_file
attachment-given none creation modification read size =
    dates creation modification read size (size == no_size)
attachment-given (some name) creation modification read size = refl

-- What each of them notes.
module _ (fields : SingleFields) where
  note-filename :
      (o : Option Bytes)
      → note_parms fields (given filename_parm o)
        ≡ record fields { fld_disposition_filename = or_before o fields.fld_disposition_filename }
  unfolding note_parms note_parm
  note-filename none = refl
  note-filename (some value) = refl

  note-creation :
      (o : Option Bytes)
      → note_parms fields (given creation_date_parm o) ≡ record fields {
        fld_disposition_creation_date = or_before o fields.fld_disposition_creation_date;
      }
  unfolding note_parms note_parm
  note-creation none = refl
  note-creation (some value) = refl

  note-modification :
      (o : Option Bytes)
      → note_parms fields (given modification_date_parm o) ≡ record fields {
        fld_disposition_modification_date = or_before o fields.fld_disposition_modification_date;
      }
  unfolding note_parms note_parm
  note-modification none = refl
  note-modification (some value) = refl

  note-read :
      (o : Option Bytes)
      → note_parms fields (given read_date_parm o)
        ≡ record fields { fld_disposition_read_date = or_before o fields.fld_disposition_read_date }
  unfolding note_parms note_parm
  note-read none = refl
  note-read (some value) = refl

  note-size :
      (size : ℕ) (b : Bool)
      → note_parms fields (if b then [] else size_parm size ∷ [])
        ≡ record fields { fld_disposition_size = if b then fields.fld_disposition_size else size }
  unfolding note_parms note_parm
  note-size size true = refl
  note-size size false = refl

module _ (engine : DispositionEngine) (law : IsGiving engine) where
  -- A disposition that is made of values gives them all back: every value that is given is noted, the
  -- size unless it is -1, and the fields for the others stay as they are; the file name of the
  -- attachment is the one that was given. The pools and lists refuse nothing.
  pub single_fields_init-new_with_data :
      (type : DispositionType) (filename creation modification read : Option Bytes) (size : ℕ)
      (fields : SingleFields)
      → (d : Disposition) × (disposition_new_with_data engine type filename creation modification
            read size
          ≡ some d)
        × (disposition_single_fields_init fields d ≡ record {
          fld_disposition = some d;
          fld_disposition_filename = or_before filename fields.fld_disposition_filename;
          fld_disposition_creation_date = or_before creation fields.fld_disposition_creation_date;
          fld_disposition_modification_date =
              or_before modification fields.fld_disposition_modification_date;
          fld_disposition_read_date = or_before read fields.fld_disposition_read_date;
          fld_disposition_size = if size == no_size then fields.fld_disposition_size else size;
        })
        × (get_attachment_file d.dsp_parms ≡ filename)
  unfolding disposition_new_with_data disposition_new disposition_single_fields_init
  single_fields_init-new_with_data type filename creation modification read size fields =
      let parms = all_given filename creation modification read (given_size size) in
      let name = given filename_parm filename in
      let name_creation = name ++ given creation_date_parm creation in
      let three = name_creation ++ given modification_date_parm modification in
      let four = three ++ given read_date_parm read in
      (
        record { dsp_type = type; dsp_parms = parms; err_cnt = 0 },
        simp (
          law.gives_type,
          law.lists.new-empty,
          add_given-given engine filename_parm filename [] law,
          add_given-given engine creation_date_parm creation name law,
          add_given-given engine modification_date_parm modification name_creation law,
          add_given-given engine read_date_parm read three law,
          add_size-given engine size four law,
          law.gives_disposition,
        ),
        rw (
          note_parms-append _ four (given_size size),
          note_parms-append _ three (given read_date_parm read),
          note_parms-append _ name_creation (given modification_date_parm modification),
          note_parms-append _ name (given creation_date_parm creation),
          note-filename _ filename,
          note-creation _ creation,
          note-modification _ modification,
          note-read _ read,
          note-size _ size (size == no_size),
        ),
        attachment-given filename creation modification read size,
      )
