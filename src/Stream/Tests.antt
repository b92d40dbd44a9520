-- ===== src/Stream/Tests.antt =====
-- The theorems on application data at concrete connections.
use cnnic_gmtls.Base.{ℕ, refl, arith, List, [], ◌∷◌, true, false, inr}
use cnnic_gmtls.Base.State.{Ends}
use cnnic_gmtls.Record.{application_data}
use cnnic_gmtls.Record.InnerType.{is_inner_type_byte}
use cnnic_gmtls.Record.Gcm.{Sm4GcmMode}
use cnnic_gmtls.Stream.{Stream}
use cnnic_gmtls.Stream.Rw.{read}
use cnnic_gmtls.Stream.Transfer.{Connected, Transfers, receiving, read-write, read-write_data_type}
use cnnic_gmtls.Stream.Termination.{read-Ends}
use cnnic_gmtls.Samples.{toy_aead, toy_sm3, mode, in_step, stream}

abbrev connected : Connected (stream true) (stream false) mode mode
connected = record {
  layers = record {
    writer_open = refl;
    reader_open = refl;
    writer_encrypts = refl;
    reader_decrypts = refl;
    writer_cipher = refl;
    reader_cipher = refl;
    modes = in_step;
  };
  writer_complete = refl;
  reader_complete = refl;
  reader_version = refl;
  nothing_kept = refl;
}

read-write_example :
    (bytes : List ℕ) × (s' : Stream) × (r' : Stream) × (w' : Sm4GcmMode) × (m' : Sm4GcmMode)
    × Transfers toy_aead toy_sm3 5 1
        (b'h' ∷ b'i' ∷ [])
        (b'h' ∷ b'i' ∷ [])
        (3 ∷ [])
        (stream true)
        (stream false)
        bytes
        s'
        r'
        w'
        m'
unfolding is_inner_type_byte
read-write_example =
    read-write toy_aead toy_sm3 5 1 (b'h' ∷ b'i' ∷ []) (3 ∷ []) (stream true) (stream false) mode
      mode connected (omega arith) (inr refl)

read-write_data_type_example :
    (bytes : List ℕ) × (s' : Stream) × (r' : Stream) × (w' : Sm4GcmMode) × (m' : Sm4GcmMode)
    × Transfers toy_aead toy_sm3 5 9
        (b'h' ∷ application_data ∷ [])
        (b'h' ∷ [])
        []
        (stream true)
        (stream false)
        bytes
        s'
        r'
        w'
        m'
read-write_data_type_example =
    read-write_data_type toy_aead toy_sm3 5 9 (b'h' ∷ []) [] (stream true) (stream false) mode mode
      connected (omega arith)

read-Ends_example :
    Ends
      (read toy_aead toy_sm3 5 9 (receiving (23 ∷ 3 ∷ 3 ∷ 0 ∷ 1 ∷ 7 ∷ []) (stream false)))
      (λ _ _. Unit)
read-Ends_example =
    read-Ends toy_aead toy_sm3 5 9 (receiving (23 ∷ 3 ∷ 3 ∷ 0 ∷ 1 ∷ 7 ∷ []) (stream false))
