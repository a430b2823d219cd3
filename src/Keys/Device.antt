-- ===== src/Keys/Device.antt =====
-- A system on which the operations on keys can be run, and the laws of its Keystore.
use platform_system_vold.Base.{
  ℕ, zero, suc, ◌≡◌, refl, ap, Bool, true, false, [], ◌∷◌, ◌++◌, Option, none, some, length, Text,
  codes,
}
use platform_system_vold.Checkpoint.Control.Types.{Env}
use platform_system_vold.Keys.World.{Request, encrypt, decrypt, Operation, System}
use platform_system_vold.Keys.Storage.{resize}
use platform_system_vold.Keys.Install.{zeros}
use platform_system_vold.Keys.Streams.{Streams}
use platform_system_vold.Keys.Sealing.{IsSealing}
use platform_system_vold.Keys.Wrapping.{IsKeystore}

-- A cipher on which a test can be run: each byte is raised by one, and zeros are the tag.
pub raised : Text → Text
raised [] = []
raised (c ∷ s) = suc c ∷ raised s

pub lowered : Text → Text
lowered [] = []
lowered (zero ∷ s) = lowered s
lowered (suc c ∷ s) = c ∷ lowered s

raised-append : (s t : Text) → raised (s ++ t) ≡ raised s ++ raised t
unfolding raised
raised-append [] t = refl
raised-append (c ∷ s) t = ap (λ (r : Text). suc c ∷ r) (raised-append s t)

lowered-append : (s t : Text) → lowered (s ++ t) ≡ lowered s ++ lowered t
unfolding lowered
lowered-append [] t = refl
lowered-append (zero ∷ s) t = lowered-append s t
lowered-append (suc c ∷ s) t = ap (λ (r : Text). c ∷ r) (lowered-append s t)

lowered-raised : (s t : Text) → lowered t ≡ [] → lowered (raised s ++ t) ≡ s
unfolding lowered raised
lowered-raised [] t h = h
lowered-raised (c ∷ s) t h = ap (λ (r : Text). c ∷ r) (lowered-raised s t h)

pub zeros_size : (n : ℕ) → length (zeros n) ≡ n
zeros_size zero = refl
zeros_size (suc n) = ap suc (zeros_size n)

pub resize_size : (n : ℕ) (s : Text) → length (resize n s) ≡ n
unfolding resize
resize_size zero s = refl
resize_size (suc n) [] = ap suc (resize_size n [])
resize_size (suc n) (c ∷ s) = ap suc (resize_size n s)

abbrev pub env : Env
env = record {
  boot_control = none;
  dont_commit = false;
  fstab = [];
  mounts = none;
  entry_of = λ point type. none;
  entry_at = λ point. none;
  remounts = λ point options. true;
  bow_device = λ block_device. [];
  writes_bow_state = λ bow_device state. true;
  opens = λ point. true;
  trims = λ point. true;
  can_read = true;
  can_write = true;
  can_remove = true;
  after_failed_write = λ old content. old;
  parse_int = λ content. none;
}

abbrev pub operation : Option Text → Request → Operation
operation upgraded (encrypt id) = record {
  upgraded_blob = upgraded;
  out_nonce = some (zeros 12);
  update = λ before chunk. some (raised chunk);
  finish = λ before. some (zeros 16);
}
operation upgraded (decrypt id nonce) = record {
  upgraded_blob = upgraded;
  out_nonce = none;
  update = λ before chunk. some (lowered chunk);
  finish = λ before. some [];
}

-- A system whose calls fail as `works` says, with a Keystore that asks for an upgrade or not.
abbrev pub system : (ℕ → Bool) → Option Text → System
system works upgraded = record {
  works = works;
  canonical = λ path. path;
  remnant = λ call. none;
  random = λ call count. zeros count;
  sha512 = resize 64;
  generated_key = λ call rollback id. codes "blob";
  generated_storage_key = λ call. zeros 64;
  exported_key = λ call key. key;
  begins = λ call blob request. operation upgraded request;
  gcm_encrypt = λ key nonce plaintext. plaintext;
  gcm_tag = λ key nonce plaintext. zeros 16;
  gcm_decrypt = λ key nonce body. body;
  gcm_verifies = λ key nonce body tag. true;
  partly_discarded = λ call files. files;
  partly_removed = λ call dir. some dir;
  cp_env = env;
}

abbrev pub device : System
device = system (λ n. true) none

pub device-IsSealing : IsSealing device
device-IsSealing = record {
  random_size = λ call count. zeros_size count;
  body_size = λ key nonce p. refl;
  tag_size = λ key nonce p. refl;
  opens = λ key nonce p. refl;
  verifies = λ key nonce p. refl;
}

pub encrypt-Streams : (id : Text) → Streams (operation none (encrypt id))
unfolding raised
encrypt-Streams id = record {
  output = λ before input. raised input;
  updates = λ before input fits. refl;
  of_empty = λ before. refl;
  of_append = λ before a b. raised-append a b;
}

pub decrypt-Streams : (id nonce : Text) → Streams (operation none (decrypt id nonce))
unfolding lowered
decrypt-Streams id nonce = record {
  output = λ before input. lowered input;
  updates = λ before input fits. refl;
  of_empty = λ before. refl;
  of_append = λ before a b. lowered-append a b;
}

no_upgrade : (r : Request) → (operation none r).upgraded_blob ≡ none
no_upgrade (encrypt id) = refl
no_upgrade (decrypt id nonce) = refl

pub device-IsKeystore : IsKeystore device
unfolding encrypt-Streams decrypt-Streams lowered
device-IsKeystore = record {
  fresh = λ m resistant id n r. no_upgrade r;
  nonce = λ n blob id. zeros 12;
  nonce_given = λ n blob id. refl;
  nonce_size = λ n blob id. refl;
  encrypts = λ n blob id. encrypt-Streams id;
  mac = λ n blob id message. zeros 16;
  mac_given = λ n blob id message. refl;
  mac_size = λ n blob id message. refl;
  decrypts = λ m n blob id. decrypt-Streams id (zeros 12);
  opens = λ m n blob id message. lowered-raised message (zeros 16) refl;
  rest = λ m n blob id message. [];
  accepts = λ m n blob id message. refl;
}
