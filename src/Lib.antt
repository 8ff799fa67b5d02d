-- ===== src/Lib.antt =====
-- The message runtime of the library libflipper, the code of the host that calls it, and the scheduler of
-- the tasks of a device.
--
-- A host calls functions of modules on a device by messages of 64 bytes. Each has a header with a magic
-- number, a checksum, a length and a class; class 0 calls a function, class 3 asks for the index of a
-- module by its name. The device performs a message and replies with a value and an error.
--
-- The parts, from the ground up:
--   Prelude  shared names, lists over native numbers, bits, bytes of memory, and commands that may fault
--   Crc      lib/crc.c. The checksum, bit by bit; a read behind the object is none.
--   Error    lib/error.h, lib/errors.def, lib/error.c. Codes by number; the error register is a field.
--   Ll       lib/ll.c over a store of nodes. Loops run on fuel, and one unit more than there are cells
--            is enough. The other parts take a list as the sequence of its items.
--   Device   lib/device.c, lib/module.c. A device with its modules; what the code calls through function
--            pointers and from the C library is the record Platform, a parameter.
--   Modules  dyld_register and lf_module_get_by_name of lib/dyld.c, lf_module_get_by_index of
--            lib/fmr_helper.c. A list of modules is a map from names.
--   Fmr      lib/fmr.c. fmr_perform and the dispatchers rpc, push, pull, dyld, malloc and free. A packet is
--            the bytes of memory from its start on, those behind it included, since the dispatchers read
--            there; a read or write outside of what the model has faults. Dispatchers that a plugin
--            registers are a parameter.
--   Call     lib/fmr_helper.c. The lists of arguments, and lf_create_call. A write behind the 16 types of a call is none.
--   Dyld     lib/dyld.c on the side of the host: lf_dyld_dyn_sym_lookup, dyld_module, dyld_unload.
--   Client   lib/libflipper.c. The attached devices, lf_invoke and lf_invoke_by_index.
--   Debug    lib/debug.c: the text of a packet, and the memory that is read for it. A read behind an array of
--            names faults.
--   Fvm      utils/fvm/src/main.c and src/api/fvm_dac_module.c: the virtual device, which performs the datagrams that it
--            gets with Fmr and replies by Network. The system and the libraries of the command line are the record
--            Host, a parameter. The bytes behind a short datagram are those that the memory of the packet, a variable
--            of the loop's body, happens to have. Session puts a client and a network, the record Between, on the
--            other side. An error that the transport raises is kept in its own register, since fmr_perform does not
--            read it after the write.
--   Scheduler  os/arch/armv7/scheduler.c and os/include/os/scheduler.h: the ring of tasks of a device. The
--            search for the next task runs on fuel, one unit for each task and one more.
--   Loader   os/src/loader.c and os/include/os/loader.h: the relocation of images and the start of
--            applications. Its loops read their bound from memory in each turn and run on fuel, one unit more
--            than there are words.
--   Bulk     platforms/atmegau2/src/bulk.c: bulk transfers of the usb bridge, in packets of 64 bytes, whose number
--            is an int of 16 bits. A waiting loop runs along the polls that the controller answers.
--   Control  platforms/atmegau2/src/control.c, debug.c, descriptors.c and include/megausb.h: the handlers of
--            the usb bridge, which write actions to the controller. The loop that sends a descriptor runs on
--            16 turns, enough for 255 bytes.
--   Uart     platforms/atmegau2/api/uart0.c: the serial line between the bridge and the main chip. Waiting
--            loops run along what their turns find.
--   Chip     platforms/atsam4s/src/main.c and api/uart0.c: the program of the main chip, which performs the packets of
--            its serial line with Fmr. Waiting loops run along the answers of the line, and a wait for the clock has at most
--            5001 turns. The model of main ends with its call of os_scheduler_init, and has the set up of
--            the converter from Dac.
--   Avr      platforms/atmegau2/api: gpio.c, button.c, led.c, wdt.c and spi.c, the drivers of the usb bridge over its
--            registers. Waiting loops run along the values that a flag has when it is read.
--   Boot     platforms/atsam4s/src/vectors.c and os/arch/armv7/syscalls.c: the start of the main chip, its table of interrupts
--            and its heap. The loops run on fuel, and as many units as there are words are enough.
--   Bridge   platforms/atmegau2/src/main.c: the loop of the usb bridge, which performs the messages of Bulk with Fmr.
--            It runs on a number of turns; a transmission that never ends is taken as one that its timeout ends.
--   Dac      platforms/atsam4s/api/dac.c and dac_wrapper.c: the converter of the main chip. The vendored library
--            is the list of the calls that are made of it.
--   Network  platforms/posix/src/network.c and include/network.h: a device that is reached by datagrams.
--            Sockets are the record Sockets, a parameter.
--   Usb      platforms/posix/src/libusb.c: a device on the bus of the host. libusb is the record Host, a
--            parameter. The loops of transfers run on fuel, and the number of bytes is enough where the size
--            of the endpoint is not 0; the context that the program makes has sizes of 0.
--   Fdebug   utils/fdebug/src/main.c: the two threads of the debug console, which share a mutex. A run is a list of actions in
--            the order in which they are taken. A call that fails without setting `read` is no action of a run.
--   Flash    utils/fdfu/src/main.c: the tool that writes firmware. What it calls on the device is the record
--            Link, a parameter, since those functions have no body in the repository. Its loops run on fuel.
--
-- Numbers are natural numbers with the wrap around of the C types written out. Loops over arguments and
-- bytes are recursion on the list; only the loops of lib/ll.c, of the scheduler, of the loader, of the start of
-- the main chip, of the usb host and of the firmware tool run on fuel. Text that the code prints is left out, but for that of
-- Debug and the bytes and titles of Fdebug. Memory that is allocated is an address from the platform, 0 where there is none.
--
-- Not modelled: the drivers of the main chip besides its serial line and converter, which call the vendored library; the
-- colour of the led of the bridge, which is a loop in assembly; the set up of the debug console; the other command line
-- tools under utils, which only call the library and print; lib/carbon, which is compiled out; the assembly, and
-- the vendored libraries.
pub mod Prelude
pub mod Crc
pub mod Error
pub mod Ll
pub mod Device
pub mod Modules
pub mod Fmr
pub mod Call
pub mod Dyld
pub mod Client
pub mod Scheduler
pub mod Bulk
pub mod Network
pub mod Control
pub mod Uart
pub mod Usb
pub mod Flash
pub mod Loader
pub mod Dac
pub mod Debug
pub mod Fdebug
pub mod Fvm
pub mod Chip
pub mod Avr
pub mod Boot
pub mod Bridge
