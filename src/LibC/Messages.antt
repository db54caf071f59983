-- ===== src/LibC/Messages.antt =====
-- libc/string.c and userspace/stdlib/string.c: strerror() of the kernel and of the user programs, and the
-- tables of their messages.
use Prim.Native.String.{String}
use ulmix_i.Errno.{efsnotsup, econflict}
use ulmix_i.Base.{
  ℕ, ◌*◌, ◌<◌, ◌≤◌, ◌≡◌, ◌≢◌, ◌↔◌, refl, none, some, List, [], ◌∷◌, arith, ltb, if◌then◌else◌,
  get_elem?, length, get_elem?-beyond, get_elem?-within,
}

-- What strerror() points to; `wild` is whatever follows the table.
pub data Message : Type 0 where
  text : String → Message
  null wild : Message

err_messages : List String
err_messages =
    "success" ∷ "operation not permitted" ∷ "no such file or directory" ∷ "no such process"
    ∷ "interrupted system call" ∷ "input/output error" ∷ "no such device or address"
    ∷ "argument list too long" ∷ "exec format error" ∷ "bad file descriptor" ∷ "no child processes"
    ∷ "resource temporarily unavailable" ∷ "cannot allocate memory" ∷ "permission denied"
    ∷ "bad address" ∷ "block device required" ∷ "device or resource busy" ∷ "file exists"
    ∷ "invalid cross-device link" ∷ "no such device" ∷ "not a directory" ∷ "is a directory"
    ∷ "invalid argument" ∷ "too many open files in system" ∷ "too many open files"
    ∷ "inappropriate ioctl for device" ∷ "text file busy" ∷ "file too large"
    ∷ "no space left on device" ∷ "illegal seek" ∷ "read-only file system" ∷ "too many links"
    ∷ "broken pipe" ∷ "numerical argument out of domain" ∷ "numerical result out of range"
    ∷ "resource deadlock avoided" ∷ "file name too long" ∷ "no locks available"
    ∷ "function not implemented" ∷ "directory not empty" ∷ "too many levels of symbolic links"
    ∷ "resource temporarily unavailable" ∷ "no message of desired type" ∷ "identifier removed"
    ∷ "channel number out of range" ∷ "level 2 not synchronized" ∷ "level 3 halted"
    ∷ "level 3 reset" ∷ "link number out of range" ∷ "protocol driver not attached"
    ∷ "no csi structure available" ∷ "level 2 halted" ∷ "invalid exchange"
    ∷ "invalid request descriptor" ∷ "exchange full" ∷ "no anode" ∷ "invalid request code"
    ∷ "invalid slot" ∷ "resource deadlock avoided" ∷ "bad font file format" ∷ "device not a stream"
    ∷ "no data available" ∷ "timer expired" ∷ "out of streams resources"
    ∷ "machine is not on the network" ∷ "package not installed" ∷ "object is remote"
    ∷ "link has been severed" ∷ "advertise error" ∷ "srmount error" ∷ "communication error on send"
    ∷ "protocol error" ∷ "multihop attempted" ∷ "rfs specific error" ∷ "bad message"
    ∷ "value too large for defined data type" ∷ "name not unique on network"
    ∷ "file descriptor in bad state" ∷ "remote address changed"
    ∷ "can not access a needed shared library" ∷ "accessing a corrupted shared library"
    ∷ ".lib section in a.out corrupted" ∷ "attempting to link in too many shared libraries"
    ∷ "cannot exec a shared library directly" ∷ "invalid or incomplete multibyte or wide character"
    ∷ "interrupted system call should be restarted" ∷ "streams pipe error" ∷ "too many users"
    ∷ "socket operation on non-socket" ∷ "destination address required" ∷ "message too long"
    ∷ "protocol wrong type for socket" ∷ "protocol not available" ∷ "protocol not supported"
    ∷ "socket type not supported" ∷ "operation not supported" ∷ "protocol family not supported"
    ∷ "address family not supported by protocol" ∷ "address already in use"
    ∷ "cannot assign requested address" ∷ "network is down" ∷ "network is unreachable"
    ∷ "network dropped connection on reset" ∷ "software caused connection abort"
    ∷ "connection reset by peer" ∷ "no buffer space available"
    ∷ "transport endpoint is already connected" ∷ "transport endpoint is not connected"
    ∷ "cannot send after transport endpoint shutdown" ∷ "too many references: cannot splice"
    ∷ "connection timed out" ∷ "connection refused" ∷ "host is down" ∷ "no route to host"
    ∷ "operation already in progress" ∷ "operation now in progress" ∷ "stale file handle"
    ∷ "structure needs cleaning" ∷ "not a xenix named type file" ∷ "no xenix semaphores available"
    ∷ "is a named type file" ∷ "remote i/o error" ∷ "disk quota exceeded" ∷ "no medium found"
    ∷ "wrong medium type" ∷ "operation canceled" ∷ "required key not available" ∷ "key has expired"
    ∷ "key has been revoked" ∷ "key was rejected by service" ∷ "owner died"
    ∷ "state not recoverable" ∷ "operation not possible due to rf-kill"
    ∷ "memory page has hardware error" ∷ "operation not supported" ∷ "filesystem not supported"
    ∷ "interference conflict" ∷ []

pub entry : List String → ℕ → Message
entry messages i = elim (get_elem? messages i) [ none ↦ wild | some message ↦ text message ]

-- `sizeof(err_messages)` counts the bytes of the pointers.
pub size_of : List String → ℕ
size_of messages = 4 * length messages

pub strerror : ℕ → Message
unfolding size_of entry err_messages
strerror err = if ltb err (size_of err_messages) then entry err_messages err else null

errnos : List String
errnos =
    "Success" ∷ "Operation not permitted" ∷ "No such file or directory" ∷ "No such process"
    ∷ "Interrupted system call" ∷ "Input/output error" ∷ "No such device or address"
    ∷ "Argument list too long" ∷ "Exec format error" ∷ "Bad file descriptor" ∷ "No child processes"
    ∷ "Resource temporarily unavailable" ∷ "Cannot allocate memory" ∷ "Permission denied"
    ∷ "Bad address" ∷ "Block device required" ∷ "Device or resource busy" ∷ "File exists"
    ∷ "Invalid cross-device link" ∷ "No such device" ∷ "Not a directory" ∷ "Is a directory"
    ∷ "Invalid argument" ∷ "Too many open files in system" ∷ "Too many open files"
    ∷ "Inappropriate ioctl for device" ∷ "Text file busy" ∷ "File too large"
    ∷ "No space left on device" ∷ "Illegal seek" ∷ "Read-only file system" ∷ "Too many links"
    ∷ "Broken pipe" ∷ "Numerical argument out of domain" ∷ "Numerical result out of range"
    ∷ "Resource deadlock avoided" ∷ "File name too long" ∷ "No locks available"
    ∷ "Function not implemented" ∷ "Directory not empty" ∷ "Too many levels of symbolic links"
    ∷ "Resource temporarily unavailable" ∷ "No message of desired type" ∷ "Identifier removed"
    ∷ "Channel number out of range" ∷ "not synchronized" ∷ "halted" ∷ "reset"
    ∷ "Link number out of range" ∷ "Protocol driver not attached" ∷ "No CSI structure available"
    ∷ "halted" ∷ "Invalid exchange" ∷ "Invalid request descriptor" ∷ "Exchange full" ∷ "No anode"
    ∷ "Invalid request code" ∷ "Invalid slot" ∷ "Resource deadlock avoided" ∷ "Bad font file format"
    ∷ "Device not a stream" ∷ "No data available" ∷ "Timer expired" ∷ "Out of streams resources"
    ∷ "Machine is not on the network" ∷ "Package not installed" ∷ "Object is remote"
    ∷ "Link has been severed" ∷ "Advertise error" ∷ "Srmount error" ∷ "Communication error on send"
    ∷ "Protocol error" ∷ "Multihop attempted" ∷ "RFS specific error" ∷ "Bad message"
    ∷ "Value too large for defined data type" ∷ "Name not unique on network"
    ∷ "File descriptor in bad state" ∷ "Remote address changed"
    ∷ "Can not access a needed shared library" ∷ "Accessing a corrupted shared library"
    ∷ ".lib section in a.out corrupted" ∷ "Attempting to link in too many shared libraries"
    ∷ "Cannot exec a shared library directly" ∷ "Invalid or incomplete multibyte or wide character"
    ∷ "Interrupted system call should be restarted" ∷ "Streams pipe error" ∷ "Too many users"
    ∷ "Socket operation on non-socket" ∷ "Destination address required" ∷ "Message too long"
    ∷ "Protocol wrong type for socket" ∷ "Protocol not available" ∷ "Protocol not supported"
    ∷ "Socket type not supported" ∷ "Operation not supported" ∷ "Protocol family not supported"
    ∷ "Address family not supported by protocol" ∷ "Address already in use"
    ∷ "Cannot assign requested address" ∷ "Network is down" ∷ "Network is unreachable"
    ∷ "Network dropped connection on reset" ∷ "Software caused connection abort"
    ∷ "Connection reset by peer" ∷ "No buffer space available"
    ∷ "Transport endpoint is already connected" ∷ "Transport endpoint is not connected"
    ∷ "Cannot send after transport endpoint shutdown" ∷ "Too many references: cannot splice"
    ∷ "Connection timed out" ∷ "Connection refused" ∷ "Host is down" ∷ "No route to host"
    ∷ "Operation already in progress" ∷ "Operation now in progress" ∷ "Stale file handle"
    ∷ "Structure needs cleaning" ∷ "Not a XENIX named type file" ∷ "No XENIX semaphores available"
    ∷ "Is a named type file" ∷ "Remote I/O error" ∷ "Disk quota exceeded" ∷ "No medium found"
    ∷ "Wrong medium type" ∷ "Operation canceled" ∷ "Required key not available" ∷ "Key has expired"
    ∷ "Key has been revoked" ∷ "Key was rejected by service" ∷ "Owner died"
    ∷ "State not recoverable" ∷ "Operation not possible due to RF-kill"
    ∷ "Memory page has hardware error" ∷ "Operation not supported" ∷ []

pub user_strerror : ℕ → Message
unfolding entry errnos
user_strerror errnum = entry errnos errnum

length-err_messages : length err_messages ≡ 137
unfolding err_messages
length-err_messages = refl

length-errnos : length errnos ≡ 135
unfolding errnos
length-errnos = refl

entry-within : (messages : List String) (i : ℕ) → i < length messages → entry messages i ≢ wild
unfolding entry
entry-within messages i lt = go (get_elem?-within messages i lt)
  where
    go : (m : String) × (get_elem? messages i ≡ some m) → entry messages i ≢ wild
    go (m, e) = rw (e, entry) (λ w. cc)

entry-beyond : (messages : List String) (i : ℕ) → length messages ≤ i → entry messages i ≡ wild
unfolding entry
entry-beyond messages i le = rw (get_elem?-beyond messages i le, entry)

-- The kernel's strerror() compares the number with the size of its table in bytes: it reads behind the
-- table for exactly the numbers from 137 to 547, and returns NULL only from 548 on.
strerror-wild : (err : ℕ) → (strerror err ≡ wild) ↔ ((136 < err) × (err < 548))
unfolding strerror size_of
strerror-wild err = (
  (λ e. ground (arith, length-err_messages, entry-within err_messages err)),
  (λ b. ground (arith, length-err_messages, entry-beyond err_messages err)),
)

-- The strerror() of the user programs has no bound at all: it reads behind its table for exactly the
-- numbers from 135 on.
pub user_strerror-wild : (err : ℕ) → (user_strerror err ≡ wild) ↔ (134 < err)
unfolding user_strerror
user_strerror-wild err = (
  (λ e. ground (arith, length-errnos, entry-within errnos err)),
  (λ lt. entry-beyond errnos err (omega (arith, length-errnos))),
)

-- EFSNOTSUP and ECONFLICT are one below the places of their messages.
efsnotsup_message :
    (strerror efsnotsup ≡ text "operation not supported")
    × (strerror econflict ≡ text "filesystem not supported")
unfolding strerror
efsnotsup_message = (refl, refl)
