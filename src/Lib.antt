-- ===== src/Lib.antt =====
-- co_usb: a header-only C++ library that drives libusb from coroutines (boost.capy).
--
-- The program's parts. A transfer sequence (one `libusb_transfer`, or a range of them) is filled by the
-- operations of include/co_usb/transfer/operations.hpp and handed to an I/O object. Its `submit`
-- (partial_io.hpp) or `complete_submit` (complete_io.hpp) streams M buffers through N transfers: the
-- awaitable of detail/sequence_awaitable.hpp or detail/complete_sequence_awaitable.hpp submits the
-- first ones and suspends the coroutine; libusb calls `transfer_callback` for each completion, which
-- takes the next buffer and submits the transfer again, or ends; the last callback posts the coroutine
-- to its executor. The callbacks run on the thread of an event handler (include/co_usb/ev), which a
-- service of the execution context owns, starts and stops, and to which the I/O objects hold counted
-- references. Devices come from hotplug events (include/co_usb/hotplug) and are handled by the wrapper
-- types (include/co_usb/wrapper).
--
-- Where it is modelled. Prelude (Tests, Lists, Unique, Int, Words, Slots, Occurrences) has Boolean
-- tests, lists under native numbers, lists without repetition, integers, `size_t` and `int`, numbered
-- places, and how often a number occurs in a list; Libusb has documented numbers of libusb.h. Errors is
-- include/co_usb/usb_error.hpp.
-- Under Transfer: Status is include/co_usb/transfer/status.hpp; Record has the fields of
-- `libusb_transfer` that the library uses, in a store from addresses; Endpoint is
-- include/co_usb/transfer/endpoint.hpp (`make_safe`, `make_throwing`, `as`, `ep_in`, ...); Sequence is
-- concepts/transfer_sequence.hpp, detail/iterator.hpp, sequence_view.hpp and resource.hpp of
-- include/co_usb/transfer; Operations is include/co_usb/transfer/operations.hpp. Partial is
-- include/co_usb/transfer/detail/sequence_awaitable.hpp, with `await_state_t` as the record Awaitable;
-- each part of `transfer_callback` is a function, composed as the code composes them, and Partial.Run
-- has the events of an operation: a completion that libusb delivers, with what it wrote to the transfer
-- and what the next `libusb_submit_transfer` returns; Pipe, a pipe of
-- regions of memory, is its abstract specification, and Partial.Refine maps its states to it. PartialIo is
-- include/co_usb/transfer/partial_io.hpp, whose `submit` starts the awaitable and gives the transfers
-- that libusb holds when it suspends, with its classes in PartialIo.Adapters. Complete and CompleteIo are the same for
-- include/co_usb/transfer/detail/complete_sequence_awaitable.hpp and
-- include/co_usb/transfer/complete_io.hpp; the map of progress is an association list, and the
-- classes are in CompleteIo.Adapters. Complete.Placement, Frame and Safety follow the memory that a
-- transfer covers, Complete.Ending what is still to be moved, and Complete.Refine maps states to Pipe. Partial.Launch and
-- Complete.Launch are the second loops of the two `await_suspend`s with callbacks in between.
-- Under Ev: Handlers is include/co_usb/ev/handlers.hpp; AnyHandler is
-- include/co_usb/ev/any_event_handler.hpp for the library's two handlers, and AnyHandler.Storage is the
-- same file for any handler type, with the memory that the objects own; HandlerRef is
-- include/co_usb/ev/event_handler_ref.hpp; HandlerService is
-- include/co_usb/ev/detail/handler_service.hpp, with what `make_context` does to the service; and Context
-- is include/co_usb/ev/context.hpp.
-- Under Hotplug: DeviceAcceptor is include/co_usb/hotplug/device_acceptor.hpp, with its steps as a
-- relation in Invariant, and with the phases of the calls of `accept` in Lifecycle; Oneshot is include/co_usb/hotplug/oneshot_hotplug.hpp and
-- detail/hotplug_awaitable.hpp beside it; Flags is include/co_usb/detail/flag_type.hpp and
-- include/co_usb/hotplug/flags.hpp. Under Wrapper: DeviceTriplet, ErrorProtocol, Interface, DriverGuard,
-- DeviceHandle and DeviceRef are the files of include/co_usb/wrapper with these names, and
-- DeviceHandleSource is concepts/device_handle_source.hpp there. Mock is qemu/9.2.4/mock.c, with the
-- descriptors in Mock.Descriptors and the set-up in Mock.Realize; QEMU's functions are parameters.
-- Examples.DeviceLoop is `dev_loop` of examples/02-hotplug-integration.cpp and
-- examples/03-complete-io.cpp, which puts the wrapper types together, with the destructors of its locals.
--
-- Conventions and bounds. Pointers are numbers and 0 is null; `size_t` is 64 bits and its arithmetic
-- wraps; an `int` that comes from a `size_t` is its 32-bit pattern. What libusb returns is an argument
-- of the definition that calls it, and what it does to a transfer or reports of it is an event. The code
-- that a mutex guards is one step, and callbacks of one operation run one at a time, as they do on the
-- one thread of the library's handlers. That thread may call back while `await_suspend` has transfers
-- still to submit: Partial.Launch and Complete.Launch have such callbacks, where libusb takes the
-- submissions; elsewhere callbacks come after that loop. The order of the calls of
-- `libusb_submit_transfer` is then not that in which buffers are taken, and is not modelled. The loop of
-- the acceptor's `shutdown` unlocks the mutex around each post: its rounds are steps in
-- DeviceAcceptor.Lifecycle, and it is one step elsewhere. Code that takes or changes elements of
-- `m_resumptions` between the rounds invalidates the iterators of the loop, and is not modelled. The
-- destructor of a `std::expected` does not throw. Assertions are taken to be compiled out, except in
-- `prefill_control`. A loop over a transfer sequence has one more unit of fuel than the sequence has
-- elements, one for each element and one for the last test; an event loop ends only where its
-- surroundings let it, and its fuel is a parameter.
--
-- Not modelled: boost.capy, libusb and QEMU themselves, memory resources except in AnyHandler.Storage and
-- `resource`, data races, what the mock device prints and how it is registered, the tests, the rest of the
-- examples and the build files.
pub mod Prelude
pub mod Libusb
pub mod Errors
pub mod Transfer
pub mod Wrapper
pub mod Ev
pub mod Hotplug
pub mod Mock
pub mod Examples
